-- ===== src/Adapter/Requests.antt =====
-- What a server reads from the request of a client: an id, a method and parameters.
pub mod Searched
pub mod Extracted
pub mod Served
pub mod Called
use mcptoolkit.Prelude.{
  ℕ, ◌≡◌, refl, ◌∙◌, ap, true, false, Option, none, some, [], ◌∷◌, length, take, Bytes,
  contains_byte, ℤ, arith,
}
use mcptoolkit.Json.Message.{Message, span}
use mcptoolkit.Json.Scan.{string_end}
use mcptoolkit.Json.RoundTrip.{IsBody}
use mcptoolkit.Json.Grammar.Contents.{Contents, Holds}
use mcptoolkit.Adapter.Tools.Scanned.{IsPlain}

string_end-IsPlain : (body : Bytes) → IsPlain body → IsBody body
unfolding string_end contains_byte
string_end-IsPlain [] h rest = refl
string_end-IsPlain (c ∷ body) (h, k) rest =
    let later = string_end-IsPlain body (ground arith, ground arith) rest in ground arith

-- What a server reads from a request.
pub record IsRequest (msg : Message) (id : ℤ) (method params : Bytes) : Type 0 where
  pub valid : msg.valid ≡ true
  pub is_request : msg.is_request ≡ true
  pub not_response : msg.is_response ≡ false
  pub same_id : msg.id ≡ some id
  pub same_method : span msg.method msg.method_len ≡ method
  pub start : Bytes
  pub has_params : msg.params_start ≡ some start
  pub same_params : take msg.params_len start ≡ params
  pub params_size : msg.params_len ≡ length params

-- What the members of a request say.
abbrev pub asked : ℤ → Bytes → Bytes → Contents
asked id method params = record {
  id = some id;
  method = some method;
  params = some params;
  result = none;
}

pub Holds-IsRequest :
    (msg : Message) (id : ℤ) (method params : Bytes)
    → msg.valid ≡ true
    → Holds msg (asked id method params)
    → IsRequest msg id method params
Holds-IsRequest msg id method params is_valid held =
    let (start, at_start, size, same) = held.method_span in
    let (params_start, at_params, params_size, same_params) = held.params_span in
    record {
      valid = is_valid;
      is_request = held.asks;
      not_response = held.answers;
      same_id = held.same_id;
      same_method = ap (λ p. span p msg.method_len) at_start ∙ same;
      start = params_start;
      has_params = at_params;
      same_params = same_params;
      params_size = params_size;
    }
