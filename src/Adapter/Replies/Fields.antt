-- ===== src/Adapter/Replies/Fields.antt =====
-- What a field adds to the text of the builder of mcptoolkit/src/json/json_builder.cpp: the first member of
-- an object, one behind a text, and one behind an object.
use mcptoolkit.Prelude.{◌≡◌, refl, some, [], ◌∷◌, ◌++◌, append_assoc, Bytes, codes, c_str}
use mcptoolkit.Json.Scan.{quote}
use mcptoolkit.Json.Builder.{
  escape_all, append_escaped, add_key, add_field, add_object_field, add_array_field,
}
use mcptoolkit.Adapter.Replies.Text.{separate_behind, separate_open}

pub field-open :
    (buf key value : Bytes)
    → add_field key (some value) (buf ++ (b'{' ∷ []))
      ≡ (buf ++ (b'{' ∷ quote ∷ (c_str key ++ (codes "\":\"" ++ escape_all (c_str value)))))
        ++ (quote ∷ [])
unfolding add_field add_key append_escaped
field-open buf key value = rw (separate_open buf) (simp append_assoc)

pub field-behind :
    (buf key value : Bytes)
    → add_field key (some value) (buf ++ (quote ∷ []))
      ≡ (buf ++ (codes "\",\"" ++ (c_str key ++ (codes "\":\"" ++ escape_all (c_str value)))))
        ++ (quote ∷ [])
unfolding add_field add_key append_escaped
field-behind buf key value = rw (separate_behind buf quote refl) (simp append_assoc)

pub object-behind :
    (buf key : Bytes)
    → add_object_field key (buf ++ (quote ∷ []))
      ≡ (buf ++ (codes "\",\"" ++ (c_str key ++ codes "\":"))) ++ (b'{' ∷ [])
unfolding add_object_field add_key
object-behind buf key = rw (separate_behind buf quote refl) (simp append_assoc)

pub array-behind :
    (buf key : Bytes)
    → add_array_field key (buf ++ (b'}' ∷ []))
      ≡ (buf ++ (codes "},\"" ++ (c_str key ++ codes "\":"))) ++ (b'[' ∷ [])
unfolding add_array_field add_key
array-behind buf key = rw (separate_behind buf b'}' refl) (simp append_assoc)

pub object-open :
    (buf key : Bytes)
    → add_object_field key (buf ++ (b'{' ∷ []))
      ≡ (buf ++ (codes "{\"" ++ (c_str key ++ codes "\":"))) ++ (b'{' ∷ [])
unfolding add_object_field add_key
object-open buf key = rw (separate_open buf) (simp append_assoc)

pub object-behind_object :
    (buf key : Bytes)
    → add_object_field key (buf ++ (b'}' ∷ []))
      ≡ (buf ++ (codes "},\"" ++ (c_str key ++ codes "\":"))) ++ (b'{' ∷ [])
unfolding add_object_field add_key
object-behind_object buf key = rw (separate_behind buf b'}' refl) (simp append_assoc)
