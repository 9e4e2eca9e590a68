-- ===== src/Credentials/Delegated.antt =====
-- What a delegation that api/delegation_routes.py verifies rests on.
use arp_spec.Common.{
  ℕ, ◌≤◌, ◌<◌, ◌≡◌, refl, sym, ap, inl, inr, true, ◌&&◌, Option, none, some, ltb, leb, ltb_iff,
  leb_iff, Bool-cases, Outcome, ok, err, ok-injective, none_is_some, >>=-eq-ok, not_raised, ◌∙◌,
}
use arp_spec.Bitstring.{Bytes}
use arp_spec.Json.{Json, str, arr, Items, nil, Fields, PyError, get, get_default, truthy, iterate}
use arp_spec.Crypto.{
  Instant, aware, naive, Check, load_public_key_from_multibase, verify_ed25519_proof,
}
use arp_spec.StatusLists.Http.{raising}
use arp_spec.Credentials.Delegation.{
  DelegationError, is_none, Delegations, method_with_id, method_or_first, of_check, with_key,
  with_method, check_issuer_signature, or_unresolved, signature_check, parse_date, compare_period,
  or_unparsed, period_check,
}

pub is_none-none {ℓ} : {A : Type ℓ} (o : Option A) → is_none o ≡ true → o ≡ none
is_none-none none e = refl
is_none-none (some a) e = cc e

pub raising-ok : {A : Type 0} (o : Outcome PyError A) {a : A} → raising o ≡ ok a → o ≡ ok a
raising-ok (ok a) e = ap ok (ok-injective e)
raising-ok (err x) e = not_raised e

module _ (env : Delegations) where
  -- a signature under a key of the issuer's DID document
  pub record IssuerSigned (fs : Fields) (issuer proof : Json) : Type 0 where
    pub did_doc : Json
    pub did_resolved : env.resolve_did issuer ≡ ok did_doc
    pub vm_id : Json
    pub has_vm_id : get "verificationMethod" proof ≡ ok vm_id
    pub methods : Json
    pub has_methods : get_default "verificationMethod" (arr nil) did_doc ≡ ok methods
    pub items : Items
    pub has_items : iterate methods ≡ ok items
    pub found : Option Json
    pub looked : method_with_id env vm_id items ≡ ok found
    pub method : Json
    pub chosen : method_or_first env methods found ≡ ok (some method)
    pub multibase : Json
    pub has_multibase : get_default "publicKeyMultibase" (str "") method ≡ ok multibase
    pub key : Bytes
    pub key_loaded : load_public_key_from_multibase env.primitives multibase ≡ ok key
    pub holds : verify_ed25519_proof env.primitives fs key ≡ ok tt

  of_check-ok : (c : Check) → of_check env c ≡ none → c ≡ ok tt
  of_check-ok (ok tt) e = refl
  of_check-ok (err reason) e = cc e

  -- the key of a method, and that the signature holds under it
  record KeyHolds (fs : Fields) (method : Option Json) : Type 0 where
    pub vm : Json
    pub chosen : method ≡ some vm
    pub multibase : Json
    pub has_multibase : get_default "publicKeyMultibase" (str "") vm ≡ ok multibase
    pub key : Bytes
    pub key_loaded : load_public_key_from_multibase env.primitives multibase ≡ ok key
    pub holds : verify_ed25519_proof env.primitives fs key ≡ ok tt

  with_key-holds :
      (fs : Fields) (o : Outcome PyError Bytes)
      → with_key env fs o ≡ none
      → (key : Bytes) × (o ≡ ok key) × (verify_ed25519_proof env.primitives fs key ≡ ok tt)
  unfolding with_key
  with_key-holds fs (ok key) e = (key, refl, of_check-ok _ e)
  with_key-holds fs (err x) e = none_is_some (sym e)

  with_method-KeyHolds :
      (fs : Fields) (method : Option Json)
      → with_method env fs method ≡ ok none
      → KeyHolds fs method
  unfolding with_method
  with_method-KeyHolds fs none e = none_is_some (sym (ok-injective e))
  with_method-KeyHolds fs (some vm) e =
      let (multibase, has_multibase, e1) =
        >>=-eq-ok (get_default "publicKeyMultibase" (str "") vm) _ e in
      let (key, key_loaded, holds) = with_key-holds fs _ (ok-injective e1) in
      record {
        vm = vm;
        chosen = refl;
        multibase = multibase;
        has_multibase = has_multibase;
        key = key;
        key_loaded = key_loaded;
        holds = holds;
      }

  check_issuer_signature-IssuerSigned :
      (fs : Fields) (issuer proof : Json)
      → check_issuer_signature env fs issuer proof ≡ ok none
      → IssuerSigned fs issuer proof
  unfolding check_issuer_signature
  check_issuer_signature-IssuerSigned fs issuer proof e =
      let (did_doc, did_resolved, e1) = >>=-eq-ok (env.resolve_did issuer) _ e in
      let (vm_id, has_vm_id, e2) = >>=-eq-ok (get "verificationMethod" proof) _ e1 in
      let (methods, has_methods, e3) =
        >>=-eq-ok (get_default "verificationMethod" (arr nil) did_doc) _ e2 in
      let (items, has_items, e4) = >>=-eq-ok (iterate methods) _ e3 in
      let (found, looked, e5) = >>=-eq-ok (method_with_id env vm_id items) _ e4 in
      let (method, chosen, e6) = >>=-eq-ok (method_or_first env methods found) _ e5 in
      let k = with_method-KeyHolds fs method e6 in
      record {
        did_doc = did_doc;
        did_resolved = did_resolved;
        vm_id = vm_id;
        has_vm_id = has_vm_id;
        methods = methods;
        has_methods = has_methods;
        items = items;
        has_items = has_items;
        found = found;
        looked = looked;
        method = k.vm;
        chosen = chosen ∙ ap ok k.chosen;
        multibase = k.multibase;
        has_multibase = k.has_multibase;
        key = k.key;
        key_loaded = k.key_loaded;
        holds = k.holds;
      }

  or_unresolved-none :
      (o : Outcome PyError (Option DelegationError)) → or_unresolved env o ≡ none → o ≡ ok none
  or_unresolved-none (ok found) e = ap ok e
  or_unresolved-none (err x) e = none_is_some (sym e)

  or_unparsed-none :
      (o : Outcome PyError (Option DelegationError)) → or_unparsed env o ≡ none → o ≡ ok none
  or_unparsed-none (ok found) e = ap ok e
  or_unparsed-none (err x) e = none_is_some (sym e)

  pub signature_check-IssuerSigned :
      (fs : Fields) (issuer proof : Json)
      → signature_check env fs issuer proof ≡ none
      → IssuerSigned fs issuer proof
  unfolding signature_check
  signature_check-IssuerSigned fs issuer proof e = elim (Bool-cases (truthy proof)) [
    | inr missing ↦ none_is_some (sym (rw missing at e))
    | inl given ↦
        check_issuer_signature-IssuerSigned fs issuer proof (or_unresolved-none _ (rw given at e))
  ]

  -- the present time lies in the validity period
  pub record InPeriod (valid_from valid_until : Json) : Type 0 where
    pub from : ℕ
    pub starts : parse_date env valid_from ≡ ok (aware from)
    pub started : from ≤ env.now
    pub until : ℕ
    pub ends : parse_date env valid_until ≡ ok (aware until)
    pub not_ended : env.now < until

  -- the comparison of two times that finds nothing
  record Within (vf vu : Instant) : Type 0 where
    pub from : ℕ
    pub starts : vf ≡ aware from
    pub started : from ≤ env.now
    pub until : ℕ
    pub ends : vu ≡ aware until
    pub not_ended : env.now < until

  compare_period-Within : (vf vu : Instant) → compare_period env vf vu ≡ ok none → Within vf vu
  unfolding compare_period
  compare_period-Within (naive from) vu e = not_raised e
  compare_period-Within (aware from) (naive until) e = elim (Bool-cases (leb from env.now)) [
    | inl started ↦ not_raised (rw started at e)
    | inr early ↦ none_is_some (sym (ok-injective (rw early at e)))
  ]
  compare_period-Within (aware from) (aware until) e = elim (Bool-cases (leb from env.now)) [
    | inr early ↦ none_is_some (sym (ok-injective (rw early at e)))
    | inl started ↦ elim (Bool-cases (ltb env.now until)) [
      | inr late ↦ none_is_some (sym (ok-injective (rw (started, late) at e)))
      | inl before ↦ record {
        from = from;
        starts = refl;
        started = (leb_iff from env.now).0 started;
        until = until;
        ends = refl;
        not_ended = (ltb_iff env.now until).0 before;
      }
    ]
  ]

  pub period_check-InPeriod :
      (valid_from valid_until : Json)
      → period_check env valid_from valid_until ≡ none
      → InPeriod valid_from valid_until
  unfolding period_check
  period_check-InPeriod valid_from valid_until e =
      elim (Bool-cases (truthy valid_from && truthy valid_until)) [
        | inr missing ↦ none_is_some (sym (rw missing at e))
        | inl given ↦
            let e1 = or_unparsed-none _ (rw given at e) in
            let (vf, parsed, e2) = >>=-eq-ok (parse_date env valid_from) _ e1 in
            let (vu, parsed', e3) = >>=-eq-ok (parse_date env valid_until) _ e2 in
            let w = compare_period-Within vf vu e3 in
            record {
              from = w.from;
              starts = parsed ∙ ap ok w.starts;
              started = w.started;
              until = w.until;
              ends = parsed' ∙ ap ok w.ends;
              not_ended = w.not_ended;
            }
      ]
