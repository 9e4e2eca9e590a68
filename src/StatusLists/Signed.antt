-- ===== src/StatusLists/Signed.antt =====
-- What the signature test of `update_status_list_endpoint` in api/status_list_routes.py rests on.
use arp_spec.Common.{
  String, ◌≡◌, refl, inl, inr, Option, none, some, arith, Bool-cases, Option-cases, Outcome, ok,
  err, str_eq, not_raised, none_is_some, ok-injective, >>=-eq-ok, Outcome-cases, some-injective,
}
use mathlib.Core.Path.{subst}
use arp_spec.Bitstring.{Bytes}
use arp_spec.Json.{
  Json, Items, nil, cons, field, end, str, arr, obj, num, bool, null, Fields, PyError,
  attribute_error, type_error, value_error, other_error, get_default,
}
use arp_spec.Crypto.{
  Check, extract_key_id, extract_signer_did, find_method, checked_with_key,
  load_public_key_from_multibase,
}
use arp_spec.Crypto.Holds.{Holds, verify_ed25519_proof-Holds, Among, here, find_method-Among}
use arp_spec.StatusCheck.{pick_method}
use arp_spec.StatusLists.{StoreError}
use arp_spec.StatusLists.Routes.{Server, check_method, check_methods, authorise}
use arp_spec.StatusLists.Http.{raising, of_store, or_bad_request, resolved, accepted}

pub raising-eq-ok : {A : Type 0} (o : Outcome PyError A) {a : A} → raising o ≡ ok a → o ≡ ok a
raising-eq-ok (ok a) h = cc h
raising-eq-ok (err e) h = not_raised h

pub of_store-eq-ok : {A : Type 0} (o : Outcome StoreError A) {a : A} → of_store o ≡ ok a → o ≡ ok a
of_store-eq-ok (ok a) h = cc h
of_store-eq-ok (err e) h = not_raised h

-- the method that is picked is one of the document's
pick_method-Among :
    (methods : Json) (key_id : Option String) {vm : Json}
    → pick_method methods key_id ≡ ok (some vm)
    → (listed : Items) × (methods ≡ arr listed) × Among vm listed
unfolding pick_method
pick_method-Among (arr nil) key_id e = none_is_some (ok-injective e)
pick_method-Among (arr (cons m ms)) none e =
    (cons m ms, refl, subst (λ x. Among x (cons m ms)) (some-injective _ _ (ok-injective e)) here)
pick_method-Among (arr (cons m ms)) (some key_id) e =
    let (found, is_found, e1) = >>=-eq-ok (find_method key_id (cons m ms)) _ e in
    elim (Option-cases found) [
      | inl nothing ↦ (
        cons m ms,
        refl,
        subst (λ x. Among x (cons m ms)) (some-injective _ _ (ok-injective (rw nothing at e1)))
            here,
      )
      | inr (other, something) ↦ (
        cons m ms,
        refl,
        subst (λ x. Among x (cons m ms)) (some-injective _ _ (ok-injective (rw something at e1)))
            (find_method-Among key_id (cons m ms) (rw something at is_found)),
      )
    ]
pick_method-Among (str s) key_id e = elim (Bool-cases (str_eq s "")) [
  | inl no_text ↦ none_is_some (ok-injective (rw no_text at e))
  | inr full ↦ not_raised (rw full at e)
]
pick_method-Among (obj end) key_id e = none_is_some (ok-injective e)
pick_method-Among (obj (field k v fs)) key_id e = not_raised e
pick_method-Among null key_id e = not_raised e
pick_method-Among (bool b) key_id e = not_raised e
pick_method-Among (num n) key_id e = not_raised e

module _ (server : Server) where
  -- the signer of a credential whose signature holds under the key in a method of the signer's DID
  -- document
  pub record IsSigned (credential : Fields) (proof : Json) (signer : String) : Type 0 where
    pub did_doc : Json
    pub key_id : Option String
    pub methods : Json
    pub named : extract_signer_did proof ≡ ok signer
    pub document : server.resolve_did signer ≡ ok did_doc
    pub has_key_id : extract_key_id proof ≡ ok key_id
    pub has_methods : get_default "verificationMethod" (arr nil) did_doc ≡ ok methods
    pub listed : Items
    pub is_list : methods ≡ arr listed
    pub vm : Json
    pub among : Among vm listed
    pub chosen : pick_method methods key_id ≡ ok (some vm)
    pub multibase : Json
    pub has_multibase : get_default "publicKeyMultibase" (str "") vm ≡ ok multibase
    pub key : Bytes
    pub loaded : load_public_key_from_multibase server.primitives multibase ≡ ok key
    pub holds : Holds server.primitives credential key

  record HeldUnder (credential : Fields) (key_id : Option String) (methods : Json) : Type 0 where
    listed : Items
    is_list : methods ≡ arr listed
    vm : Json
    among : Among vm listed
    chosen : pick_method methods key_id ≡ ok (some vm)
    multibase : Json
    has_multibase : get_default "publicKeyMultibase" (str "") vm ≡ ok multibase
    key : Bytes
    loaded : load_public_key_from_multibase server.primitives multibase ≡ ok key
    holds : Holds server.primitives credential key

  with_key-Holds :
      (credential : Fields) (o : Outcome PyError Bytes)
      → checked_with_key server.primitives credential o ≡ ok (ok tt)
      → (key : Bytes) × (o ≡ ok key) × Holds server.primitives credential key
  with_key-Holds credential (ok key) e =
      (key, refl, verify_ed25519_proof-Holds server.primitives credential key (ok-injective e))
  with_key-Holds credential (err value_error) e = not_raised (ok-injective e)
  with_key-Holds credential (err attribute_error) e = not_raised e
  with_key-Holds credential (err type_error) e = not_raised e
  with_key-Holds credential (err other_error) e = not_raised e

  check_methods-HeldUnder :
      (credential : Fields) (key_id : Option String) (methods : Json)
      → check_methods server credential key_id methods ≡ ok (ok tt)
      → HeldUnder credential key_id methods
  unfolding check_methods check_method
  check_methods-HeldUnder credential key_id methods e =
      let (found, chosen, e1) = >>=-eq-ok (pick_method methods key_id) _ e in
      elim (Option-cases found) [
        | inl nothing ↦ not_raised (ok-injective (rw nothing at e1))
        | inr (vm, something) ↦
            let picked = rw something at chosen in
            let (multibase, has_multibase, e2) =
              >>=-eq-ok (get_default "publicKeyMultibase" (str "") vm) _ (rw something at e1) in
            let (key, loaded, holds) = with_key-Holds credential _ e2 in
            let (listed, is_list, among) = pick_method-Among methods key_id picked in
            record {
              listed = listed;
              is_list = is_list;
              vm = vm;
              among = among;
              chosen = picked;
              multibase = multibase;
              has_multibase = has_multibase;
              key = key;
              loaded = loaded;
              holds = holds;
            }
      ]

  pub authorise-IsSigned :
      (credential : Fields) (proof : Json) {signer : String}
      → authorise server credential proof ≡ ok signer
      → IsSigned credential proof signer
  unfolding authorise
  authorise-IsSigned credential proof {signer = signer} e =
      let (did, named, r1) = >>=-eq-ok (or_bad_request (extract_signer_did proof)) _ e in
      let (doc, document, r2) = >>=-eq-ok (resolved (server.resolve_did did)) _ r1 in
      let (key_id, has_key_id, r3) = >>=-eq-ok (raising (extract_key_id proof)) _ r2 in
      let (methods, has_methods, r4) =
        >>=-eq-ok (raising (get_default "verificationMethod" (arr nil) doc)) _ r3 in
      let (checked, verified, r5) =
        >>=-eq-ok (raising (check_methods server credential key_id methods)) _ r4 in
      let (_, passed, r6) = >>=-eq-ok (accepted checked) _ r5 in
      let same : did ≡ signer = ok-injective r6 in
      let under =
        check_methods-HeldUnder credential key_id methods
          (rw (accepted_check checked passed) at (raising-eq-ok _ verified)) in
      record {
        did_doc = doc;
        key_id = key_id;
        methods = methods;
        named = rw same at (named_did (extract_signer_did proof) named);
        document = rw same at (resolved_doc (server.resolve_did did) document);
        has_key_id = raising-eq-ok _ has_key_id;
        has_methods = raising-eq-ok _ has_methods;
        listed = under.listed;
        is_list = under.is_list;
        vm = under.vm;
        among = under.among;
        chosen = under.chosen;
        multibase = under.multibase;
        has_multibase = under.has_multibase;
        key = under.key;
        loaded = under.loaded;
        holds = under.holds;
      }
    where
      named_did : (o : Outcome PyError String) {d : String} → or_bad_request o ≡ ok d → o ≡ ok d
      named_did o h = elim (Outcome-cases o) [
        | inl (d, is_ok) ↦ ground (arith, h, is_ok)
        | inr (x, is_err) ↦ ground (arith, h, is_err)
      ]

      resolved_doc : (o : Outcome PyError Json) {d : Json} → resolved o ≡ ok d → o ≡ ok d
      resolved_doc (ok d) h = cc h
      resolved_doc (err x) h = not_raised h

      accepted_check : (c : Check) → accepted c ≡ ok tt → c ≡ ok tt
      accepted_check (ok _) h = refl
      accepted_check (err x) h = ground (arith, h)
