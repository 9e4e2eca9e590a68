-- ===== src/Json.antt =====
-- The JSON documents that the API passes around, with the parts of Python's `dict` that the code
-- uses on them. `null` is None, which `get` also returns for a missing key. Numbers are integers:
-- documents with floats are not modelled.
use arp_spec.Common.{
  zero, String, ◌≡◌, ap, Bool, true, false, not, arith, if◌then◌else◌, Outcome, ok, err, ℤ, pos,
  str_eq, eq_iff, eq_refl,
}

mutual
  pub data Json : Type 0 where
    null : Json
    bool : Bool → Json
    num : ℤ → Json
    str : String → Json
    arr : Items → Json
    obj : Fields → Json

  pub data Items : Type 0 where
    nil : Items
    cons : Json → Items → Items

  pub data Fields : Type 0 where
    end : Fields
    field : String → Json → Fields → Fields

-- what the code catches, or lets pass
pub data PyError : Type 0 where
  attribute_error type_error value_error other_error : PyError

-- `d.get(key, default)` on the fields
unfoldable pub lookup_or : String → Json → Fields → Json
lookup_or key d end = d
lookup_or key d (field k v fs) = if str_eq k key then v else lookup_or key d fs

-- a document without a key: `{k: v for k, v in doc.items() if k != key}`
unfoldable pub without : String → Fields → Fields
without key end = end
without key (field k v fs) =
    let rest = without key fs in if str_eq k key then rest else field k v rest

-- `d[key] = value`
unfoldable pub insert : String → Json → Fields → Fields
insert key v end = field key v end
insert key v (field k w fs) = if str_eq k key then field k v fs else field k w (insert key v fs)

-- `v.get(key, default)`, which only a dict has
unfoldable pub get_default : String → Json → Json → Outcome PyError Json
get_default key d (obj fs) = ok (lookup_or key d fs)
get_default key d _ = err attribute_error

unfoldable pub get : String → Json → Outcome PyError Json
unfolding get_default
get key v = get_default key null v

-- the truth value of a document
unfoldable pub truthy : Json → Bool
truthy null = false
truthy (bool b) = b
truthy (num (pos zero)) = false
truthy (num _) = true
truthy (str s) = not (str_eq s "")
truthy (arr nil) = false
truthy (arr (cons _ _)) = true
truthy (obj end) = false
truthy (obj (field _ _ _)) = true

-- `v == "text"`
unfoldable pub is_text : String → Json → Bool
is_text t (str s) = str_eq s t
is_text t _ = false

-- `for x in v`: the values of a list, the keys of a dict; of a text its first character stands for all,
-- for the loops that call a method of a dict on it
unfoldable pub keys_of : Fields → Items
keys_of end = nil
keys_of (field k v fs) = cons (str k) (keys_of fs)

unfoldable pub iterate : Json → Outcome PyError Items
unfolding keys_of
iterate (arr xs) = ok xs
iterate (obj fs) = ok (keys_of fs)
iterate (str String.[]) = ok nil
iterate (str (String.◌∷◌ c _)) = ok (cons (str (String.◌∷◌ c String.[])) nil)
iterate _ = err type_error

pub without-insert :
    (key : String) (v : Json) (fs : Fields) → without key (insert key v fs) ≡ without key fs
unfolding without insert
without-insert key v end = simp eq_refl
without-insert key v (field k w fs) = ground (arith, without-insert key v fs)

pub lookup_or-insert_self :
    (key : String) (v d : Json) (fs : Fields) → lookup_or key d (insert key v fs) ≡ v
unfolding lookup_or insert
lookup_or-insert_self key v d end = simp eq_refl
lookup_or-insert_self key v d (field k w fs) = ground (arith, lookup_or-insert_self key v d fs)

pub is_text_iff : (t : String) (v : Json) → is_text t v ≡ true → v ≡ str t
unfolding is_text
is_text_iff t (str s) h = ap str ((eq_iff s t).0 h)
is_text_iff t null h = cc
is_text_iff t (bool b) h = cc
is_text_iff t (num n) h = cc
is_text_iff t (arr xs) h = cc
is_text_iff t (obj fs) h = cc
