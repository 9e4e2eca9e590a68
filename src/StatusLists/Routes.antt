-- ===== src/StatusLists/Routes.antt =====
-- api/status_list_routes.py: the five endpoints over the registry. The router is configured, each
-- body is parsed JSON, and the detail texts of the HTTP errors are left out.
use Prim.Native.String.{◌++◌ as str_append}
use arp_spec.Common.{
  ℕ, ◌%◌, String, false, not, Option, none, some, length, ◌==◌, if◌then◌else◌, Outcome, ok, err,
  ◌>>=◌, ℤ, str_eq,
}
use arp_spec.Bitstring.{minimum_bitstring_size}
use arp_spec.Bitstring.Codec.{decode_bitstring, validate_status_list_update}
use arp_spec.Json.{
  Json, str, arr, obj, nil, Fields, end, PyError, attribute_error, get, get_default, is_text,
}
use arp_spec.Crypto.{
  Primitives, Check, extract_key_id, extract_signer_did, load_public_key_from_multibase,
  verify_ed25519_proof, checked_with_key, verify_signed_request, no_verification_method,
}
use arp_spec.StatusCheck.{
  pick_method, StatusReport, check_credential_status, count_items, count_fields,
}
use arp_spec.StatusLists.{
  ListRow, Registry, ListCodec, Created, AllocatedIndex, create_status_list, get_status_list,
  get_status_list_credential, allocate_index, update_status_list,
}
use arp_spec.StatusLists.Http.{
  RouteError, raising, require, given, given_dict, contains, after_prefix, list_purpose,
  created_signer, of_store, of_allocation, or_bad_request, resolved, accepted, found_row,
  found_credential, unencoded, http_exception, uncaught,
}

-- the configuration, and the clock and the random list id of one request
pub record Server : Type 0 where
  pub lists : ListCodec
  pub primitives : Primitives
  pub resolve_did : String → Outcome PyError Json
  pub int_of_text : String → Option ℤ
  pub base_url : String

module _ (server : Server) where
  unfoldable pub get_status_list_endpoint : String → Registry → Outcome RouteError Json
  unfolding get_status_list_credential
  get_status_list_endpoint list_id db =
      raising (get_status_list_credential server.lists.json_loads list_id db) >>= found_credential

  -- the signed request of a body that is a dict
  unfoldable pub authenticate : ℕ → Json → Outcome RouteError String
  unfolding verify_signed_request
  authenticate now (obj body) =
      raising (verify_signed_request server.primitives now server.resolve_did body)
      >>= created_signer
  authenticate now _ = err (uncaught attribute_error)

  unfoldable pub allocate_status_list_endpoint :
      ℕ → String → Json → Registry → Outcome RouteError (Created × Registry)
  unfolding authenticate create_status_list
  allocate_status_list_endpoint now list_id body db = do
    status_purpose ← raising (get "statusPurpose" body)
    purpose ← list_purpose status_purpose
    signer_did ← authenticate now body
    of_store (
        create_status_list server.lists list_id now signer_did purpose server.base_url
          minimum_bitstring_size db)

  unfoldable pub allocate_index_endpoint :
      ℕ → String → Json → Registry → Outcome RouteError (AllocatedIndex × Registry)
  unfolding authenticate allocate_index
  allocate_index_endpoint now list_id body db = do
    signer_did ← authenticate now body
    of_allocation (allocate_index list_id signer_did db)

  -- the key in the method, and the signature under it
  unfoldable pub check_method : Fields → Option Json → Outcome PyError Check
  unfolding load_public_key_from_multibase verify_ed25519_proof
  check_method credential none = ok (err no_verification_method)
  check_method credential (some vm) = do
    multibase ← get_default "publicKeyMultibase" (str "") vm
    checked_with_key server.primitives credential
        (load_public_key_from_multibase server.primitives multibase)

  -- the method by its id, else the first
  unfoldable pub check_methods : Fields → Option String → Json → Outcome PyError Check
  unfolding pick_method check_method
  check_methods credential key_id methods = do
    vm ← pick_method methods key_id
    check_method credential vm

  -- the signer of the submitted credential, with its signature verified
  unfoldable pub authorise : Fields → Json → Outcome RouteError String
  unfolding extract_signer_did extract_key_id check_methods
  authorise credential proof = do
    signer_did ← or_bad_request (extract_signer_did proof)
    did_doc ← resolved (server.resolve_did signer_did)
    key_id ← raising (extract_key_id proof)
    methods ← raising (get_default "verificationMethod" (arr nil) did_doc)
    checked ← raising (check_methods credential key_id methods)
    _ ← accepted checked
    ok signer_did

  -- `validate_status_list_update` on the current list and the submitted one, then the write
  unfoldable pub apply_update :
      ℕ → String → Fields → Json → ListRow → Registry → Outcome RouteError (ℕ × Registry)
  unfolding decode_bitstring validate_status_list_update update_status_list
  apply_update now list_id credential (str s) current db =
      let new_bitstring = server.lists.codes s in
      let v =
        validate_status_list_update server.lists.codec current.current_bitstring new_bitstring
          current.status_purpose in
      if not v.valid then err (http_exception 400) else do
        db' ← of_store (update_status_list list_id now (obj credential) new_bitstring db)
        ok (length v.changes, db')
  apply_update now list_id credential (arr vs) current db = err (
      unencoded (decode_bitstring server.lists.codec current.current_bitstring)
        (count_items vs % 4 == 0))
  apply_update now list_id credential (obj fs) current db = err (
      unencoded (decode_bitstring server.lists.codec current.current_bitstring)
        (count_fields fs % 4 == 0))
  apply_update now list_id credential _ current db =
      err (unencoded (decode_bitstring server.lists.codec current.current_bitstring) false)

  -- from the current state of the list on
  unfoldable pub update_found :
      ℕ → String → Fields → Json → Json → String → Registry → Outcome RouteError (ℕ × Registry)
  unfolding get_status_list apply_update
  update_found now list_id credential new_encoded new_purpose signer_did db = do
    found ← raising (get_status_list server.lists.json_loads list_id db)
    current ← found_row found
    if not (is_text current.status_purpose new_purpose)
        then err (http_exception 400)
        else if not (str_eq signer_did current.owner_did)
        then err (http_exception 403)
        else apply_update now list_id credential new_encoded current db

  -- from the subject of the submitted credential on
  unfoldable pub update_with_subject :
      ℕ → String → Fields → Json → Registry → Outcome RouteError (ℕ × Registry)
  unfolding authorise update_found
  update_with_subject now list_id credential subject db = do
    encoded_value ← raising (get "encodedList" subject)
    new_encoded ← given encoded_value
    purpose_value ← raising (get "statusPurpose" subject)
    new_purpose ← given purpose_value
    proof_value ← raising (get "proof" (obj credential))
    proof ← given proof_value
    signer_did ← authorise credential proof
    update_found now list_id credential new_encoded new_purpose signer_did db

  unfoldable pub update_status_list_endpoint :
      ℕ → String → Json → Registry → Outcome RouteError (ℕ × Registry)
  unfolding contains update_with_subject
  update_status_list_endpoint now list_id body db = do
    field_value ← raising (get "credential" body)
    credential ← given_dict field_value
    cred_types ← raising (get_default "type" (arr nil) (obj credential))
    named ← raising (contains "BitstringStatusListCredential" cred_types)
    _ ← require named 400
    subject ← raising (get_default "credentialSubject" (obj end) (obj credential))
    subject_type ← raising (get "type" subject)
    _ ← require (is_text "BitstringStatusList" subject_type) 400
    update_with_subject now list_id credential subject db

  -- the closure `fetch_status_list`
  unfoldable pub fetch_status_list : Registry → Json → Outcome PyError (Option Json)
  unfolding after_prefix get_status_list_credential
  fetch_status_list db (str url) =
      elim (after_prefix (str_append server.base_url "/sovereign/status-lists/") url) [
        | none ↦ ok none
        | some list_id ↦ get_status_list_credential server.lists.json_loads list_id db
      ]
  fetch_status_list db _ = err attribute_error

  unfoldable pub verify_status_endpoint : Json → Registry → Outcome RouteError StatusReport
  unfolding fetch_status_list check_credential_status
  verify_status_endpoint body db = do
    field_value ← raising (get "credential" body)
    credential ← given_dict field_value
    raising (
        check_credential_status
          (record {
            codec = server.lists.codec;
            primitives = server.primitives;
            codes = server.lists.codes;
            int_of_text = server.int_of_text;
            fetch = fetch_status_list db;
            resolve = some server.resolve_did;
          })
          (obj credential))
