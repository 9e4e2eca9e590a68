-- ===== src/StatusLists/Http.antt =====
-- The refusals of api/status_list_routes.py: what its tests and `except` clauses turn into an HTTP
-- error, and the tests of Python values that they use.
use Prim.Native.Char.{code}
use text.Mathlib.Text.{starts_with}
use arp_spec.Common.{
  ℕ, String, Bool, true, false, ◌||◌, Option, none, some, ◌==◌, if◌then◌else◌, Outcome, ok, err,
  str_eq,
}
use arp_spec.Bitstring.{Bytes, BitError}
use arp_spec.Json.{
  Json, str, arr, obj, Items, nil, cons, Fields, field, end, PyError, type_error, value_error,
  truthy, is_text,
}
use arp_spec.Crypto.{Reason, Check, no_verification_method, bad_public_key}
use arp_spec.StatusLists.{
  ListRow, StoreError, not_found, owner_mismatch, capacity_exhausted, known_purpose,
}

-- `raise HTTPException(status_code=...)`, or an exception that the endpoint does not catch
pub data RouteError : Type 0 where
  http_exception : ℕ → RouteError
  uncaught : PyError → RouteError
  uncaught_store : StoreError → RouteError

abbrev pub raising {ℓ} : {A : Type ℓ} → Outcome PyError A → Outcome RouteError A
raising (ok a) = ok a
raising (err e) = err (uncaught e)

abbrev pub require : Bool → ℕ → Outcome RouteError (Unit {0})
require holds status = if holds then ok tt else err (http_exception status)

-- `if not value: raise HTTPException(status_code=400)`
abbrev pub given : Json → Outcome RouteError Json
given v = if truthy v then ok v else err (http_exception 400)

-- a value of a dict that is present, is a dict and is not empty
abbrev pub given_dict : Json → Outcome RouteError Fields
given_dict (obj (field k v fs)) = ok (field k v fs)
given_dict _ = err (http_exception 400)

-- `text in s` on two texts
unfoldable pub occurs_in : String → String → Bool
occurs_in t String.[] = str_eq t ""
occurs_in t (String.◌∷◌ c s) = starts_with (String.◌∷◌ c s) t || occurs_in t s

unfoldable pub text_among : String → Items → Bool
text_among t nil = false
text_among t (cons v vs) = is_text t v || text_among t vs

unfoldable pub key_among : String → Fields → Bool
key_among t end = false
key_among t (field k v fs) = str_eq k t || key_among t fs

-- `text in v`
unfoldable pub contains : String → Json → Outcome PyError Bool
unfolding occurs_in text_among key_among
contains t (str s) = ok (occurs_in t s)
contains t (arr vs) = ok (text_among t vs)
contains t (obj fs) = ok (key_among t fs)
contains t _ = err type_error

-- `s[len(prefix):]` if s starts with the prefix
unfoldable pub after_prefix : String → String → Option String
after_prefix String.[] s = some s
after_prefix (String.◌∷◌ c p) String.[] = none
after_prefix (String.◌∷◌ c p) (String.◌∷◌ d s) =
    let rest = after_prefix p s in if code c == code d then rest else none

-- one of the two purposes
abbrev pub list_purpose : Json → Outcome RouteError String
list_purpose (str p) = if known_purpose p then ok p else err (http_exception 400)
list_purpose _ = err (http_exception 400)

abbrev pub created_signer : Outcome Reason String → Outcome RouteError String
created_signer (ok signer_did) = ok signer_did
created_signer (err _) = err (http_exception 403)

abbrev pub of_store {ℓ} : {A : Type ℓ} → Outcome StoreError A → Outcome RouteError A
of_store (ok a) = ok a
of_store (err e) = err (uncaught_store e)

abbrev pub of_allocation {ℓ} : {A : Type ℓ} → Outcome StoreError A → Outcome RouteError A
of_allocation (ok a) = ok a
of_allocation (err not_found) = err (http_exception 404)
of_allocation (err owner_mismatch) = err (http_exception 403)
of_allocation (err capacity_exhausted) = err (http_exception 409)
of_allocation (err e) = err (uncaught_store e)

-- `except ValueError` around `extract_signer_did`
abbrev pub or_bad_request : Outcome PyError String → Outcome RouteError String
or_bad_request (ok did) = ok did
or_bad_request (err value_error) = err (http_exception 400)
or_bad_request (err e) = err (uncaught e)

-- `except Exception` around the resolver
abbrev pub resolved : Outcome PyError Json → Outcome RouteError Json
resolved (ok did_doc) = ok did_doc
resolved (err _) = err (http_exception 400)

-- no method or no key is a bad request, and a failed signature is forbidden
abbrev pub accepted : Check → Outcome RouteError (Unit {0})
accepted (ok _) = ok tt
accepted (err no_verification_method) = err (http_exception 400)
accepted (err bad_public_key) = err (http_exception 400)
accepted (err _) = err (http_exception 403)

abbrev pub found_row : Option ListRow → Outcome RouteError ListRow
found_row (some row) = ok row
found_row none = err (http_exception 404)

abbrev pub found_credential : Option Json → Outcome RouteError Json
found_credential (some cred) = ok cred
found_credential none = err (http_exception 404)

-- an encoded list that is no text: with a length of a multiple of 4 the decoding fails, else the
-- padding of a list or a dict does; the current list is decoded first
abbrev pub unencoded : Outcome BitError Bytes → Bool → RouteError
unencoded (err _) _ = http_exception 400
unencoded (ok _) true = http_exception 400
unencoded (ok _) false = uncaught type_error
