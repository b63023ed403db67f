-- ===== src/Paths.antt =====
-- `PathValidator`: mcptoolkit/include/path_validator.h and mcptoolkit/src/path_validator.cpp. The file
-- system is a parameter. `isalpha` is that of the C locale.
pub mod Within
pub mod Encoded
use mcptoolkit.Prelude.{
  ℕ, suc, ◌+◌, Bool, true, false, ◌&&◌, ◌||◌, not, Option, none, some, List, [], ◌∷◌, ◌++◌, ltb,
  leb, ◌==◌, if◌then◌else◌, back, Bytes, codes, beq, is_prefix, contains, contains_byte,
}
use mcptoolkit.Validation.{contains_one_of}

pub record PathValidationConfig : Type 0 where
  pub base_directory : Bytes
  pub allow_absolute_paths : Bool
  pub allow_symlinks : Bool

pub record PathValidator : Type 0 where
  pub path_config : PathValidationConfig
  pub is_ready : Bool

-- `PathValidator()`
abbrev pub new_validator : PathValidator
new_validator = record {
  path_config = record {
    base_directory = [];
    allow_absolute_paths = false;
    allow_symlinks = false;
  };
  is_ready = false;
}

unfoldable pub configure_paths : PathValidationConfig → PathValidator → PathValidator
configure_paths config v = record v { path_config = config; is_ready = true }

-- What `weakly_canonical` gives: a path, or the text of the `filesystem_error` that it throws.
pub data Resolution : Type 0 where
  resolved : Bytes → Resolution
  failed : Bytes → Resolution

-- What the code uses of `std::filesystem`: `base / path`, `weakly_canonical`, and the separator.
pub record FileSystem : Type 0 where
  pub join : Bytes → Bytes → Bytes
  pub weakly_canonical : Bytes → Resolution
  pub preferred_separator : ℕ

unfoldable pub contains_null_byte : Bytes → Bool
contains_null_byte path = contains_byte 0 path

unfoldable pub contains_traversal_sequences : Bytes → Bool
contains_traversal_sequences path =
    if contains (codes "..") path
    then true
    else if contains (codes "..\\") path
    then true
    else if contains (codes "~/") path
    then true
    else false

abbrev pub encoded_traversals : List Bytes
encoded_traversals =
    codes "%2e%2e"
    ∷ codes "%2E%2E"
    ∷ codes "%2e%2E"
    ∷ codes "%2E%2e"
    ∷ codes "%2f"
    ∷ codes "%2F"
    ∷ codes "%5c"
    ∷ codes "%5C"
    ∷ codes "%252e"
    ∷ codes "%252E"
    ∷ codes "%252f"
    ∷ codes "%252F"
    ∷ []

-- The second loop of `contains_encoded_traversal`, at the suffix that starts at `pos`. When the first
-- `find` fails it leaves `npos` in `pos`, from where the second one finds nothing: only `%2e` counts.
unfoldable pub counts_two_dots : ℕ → Bytes → Bool
counts_two_dots dot_count [] = false
counts_two_dots dot_count (c ∷ s) = elim (is_prefix (codes "%2e") (c ∷ s)) [
  | false ↦ counts_two_dots dot_count s
  | true ↦ elim (leb 2 (dot_count + 1)) [ true ↦ true | false ↦ counts_two_dots (dot_count + 1) s ]
]

unfoldable pub contains_encoded_traversal : Bytes → Bool
unfolding counts_two_dots
contains_encoded_traversal path =
    if contains_one_of encoded_traversals path then true else counts_two_dots 0 path

unfoldable pub is_alpha : ℕ → Bool
is_alpha c = (leb 65 c && leb c 90) || (leb 97 c && leb c 122)

-- A leading slash or backslash.
unfoldable pub has_root : Bytes → Bool
has_root [] = false
has_root (c ∷ path) = c == b'/' || c == b'\\'

-- A Windows drive letter and a colon.
unfoldable pub has_drive : Bytes → Bool
unfolding is_alpha
has_drive (c ∷ d ∷ path) = is_alpha c && d == b':'
has_drive _ = false

-- The base with a separator at its end; an empty base stays empty.
unfoldable pub with_separator : FileSystem → Bytes → Bytes
with_separator fs base = elim (back base) [
  | none ↦ base
  | some c ↦ if c == fs.preferred_separator then base else base ++ (fs.preferred_separator ∷ [])
]

-- The comparison at the end of `validate_within_base`; `find(base) == 0` asks for a prefix.
unfoldable pub starts_within : Bytes → Bytes → Bool
starts_within base canonical =
    if beq canonical base || is_prefix base canonical then true else false

-- `validate_within_base`; `none` for no error, and else the text of an exception or of the refusal.
unfoldable pub validate_within_base : FileSystem → PathValidator → Bytes → Option Bytes
unfolding with_separator starts_within
validate_within_base fs v canonical = elim (fs.weakly_canonical v.path_config.base_directory) [
  | failed what ↦ some (codes "Filesystem error: " ++ what)
  | resolved base ↦
      if starts_within (with_separator fs base) canonical
      then none
      else some (codes "Path escapes base directory")
]

-- The `try` block.
unfoldable pub resolve_path : FileSystem → PathValidator → Bytes → Option Bytes
resolve_path fs v user_path =
    elim (fs.weakly_canonical (fs.join v.path_config.base_directory user_path)) [
      | failed what ↦ some (codes "Filesystem error: " ++ what)
      | resolved canonical ↦ validate_within_base fs v canonical
    ]

-- `is_safe_path`: `none` for a safe path, and else the error.
unfoldable pub is_safe_path : FileSystem → PathValidator → Bytes → Option Bytes
unfolding contains_null_byte
is_safe_path fs v user_path =
    if not v.is_ready
    then some (codes "PathValidator not configured")
    else if contains_null_byte user_path
    then some (codes "Path contains null byte")
    else if contains_traversal_sequences user_path
    then some (codes "Path contains directory traversal sequences (..)")
    else if contains_encoded_traversal user_path
    then some (codes "Path contains URL-encoded traversal sequences")
    else if not v.path_config.allow_absolute_paths && has_root user_path
    then some (codes "Absolute paths are not allowed")
    else if not v.path_config.allow_absolute_paths && has_drive user_path
    then some (codes "Absolute paths are not allowed")
    else resolve_path fs v user_path
