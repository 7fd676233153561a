-- ===== src/Gate/Total.antt =====
-- The authorization of a unary call always ends, since the paths of requests are normalised.
use file_server_management.Prelude.{
  ℕ, ◌+◌, ◌<◌, ◌≤◌, ◌≡◌, inl, inr, refl, true, ◌++◌, Option, none, some, Result, ok, err, arith,
  Option-cases, Result-cases, length, if◌then◌else◌,
}
use file_server_management.Text.{Text, txt, trim_suffix}
use file_server_management.FilePath.{is_abs}
use file_server_management.Auth.{AuthContext, AclStore, Permission}
use file_server_management.Auth.Jwt.{JwtError}
use file_server_management.Auth.Resolver.{can_access_paths}
use file_server_management.Auth.Ancestors.{visited}
use file_server_management.Auth.Grants.{can_access-eq}
use file_server_management.Authz.{
  Request, list_objects, upload_object, download_object, initiate_upload, complete_upload,
  task_status, get_task, create_folder, other, method_permission, extract_path,
}
use file_server_management.Authz.Normalize.{
  normal_form, normal_form-IsNormal, normalize-eq-normal_form, length-normal_form,
}
use file_server_management.Gate.{
  Rejection, Reply, replied, rejected, Context, with_auth_context, authenticate, authorize,
  unary_chain, access_denied, cannot_extract_path,
}
use file_server_management.Gate.Unary.{decide_call, unary_chain-ok, unary_chain-err}

-- The text that the path of a request is made from: "/" where there is none.
abbrev pub request_text : Request → Text
request_text (list_objects prefix) = prefix
request_text (upload_object path content) = path
request_text (download_object path) = path
request_text (initiate_upload target_path) = target_path
request_text (create_folder parent_path folder_name requested_by) =
    trim_suffix parent_path (txt "/") ++ txt "/" ++ folder_name
request_text _ = txt "/"

-- The path that a request is about; none for a request of another type.
abbrev pub request_path : Request → Option Text
request_path complete_upload = some (txt "/")
request_path task_status = some (txt "/")
request_path (get_task task_id) = some (txt "/")
request_path other = none
request_path (list_objects prefix) = some (normal_form prefix)
request_path (upload_object path content) = some (normal_form path)
request_path (download_object path) = some (normal_form path)
request_path (initiate_upload target_path) = some (normal_form target_path)
request_path (create_folder parent_path folder_name requested_by) =
    some (normal_form (trim_suffix parent_path (txt "/") ++ txt "/" ++ folder_name))

pub extract_path-eq :
    (fuel : ℕ) (req : Request)
    → length (request_text req) + 1 < fuel
    → extract_path fuel req ≡ some (request_path req)
unfolding extract_path
extract_path-eq fuel (list_objects prefix) h = rw (normalize-eq-normal_form fuel prefix h)
extract_path-eq fuel (upload_object path content) h = rw (normalize-eq-normal_form fuel path h)
extract_path-eq fuel (download_object path) h = rw (normalize-eq-normal_form fuel path h)
extract_path-eq fuel (initiate_upload target) h = rw (normalize-eq-normal_form fuel target h)
extract_path-eq fuel complete_upload h = refl
extract_path-eq fuel task_status h = refl
extract_path-eq fuel (get_task task_id) h = refl
extract_path-eq fuel (create_folder parent_path folder_name requested_by) h =
    rw (normalize-eq-normal_form fuel _ h)
extract_path-eq fuel other h = refl

-- The path of a request begins with a slash and is hardly longer than the text it is made from.
pub record IsRooted (n : ℕ) (p : Text) : Type 0 where
  pub abs : is_abs p ≡ true
  pub short : length p ≤ n + 1

root-IsRooted : IsRooted 1 (txt "/")
root-IsRooted = record { abs = unfold is_abs in refl; short = omega arith }

normal_form-IsRooted : (p : Text) → IsRooted (length p) (normal_form p)
normal_form-IsRooted p = record { abs = (normal_form-IsNormal p).0; short = length-normal_form p }

move : {n : ℕ} {p q : Text} → ◌≡◌ {A = Option Text} (some q) (some p) → IsRooted n q → IsRooted n p
move {n} {p} {q} e r = let same : q ≡ p = ground arith in rw same at r

pub request_path-IsRooted :
    (req : Request) (p : Text) → request_path req ≡ some p → IsRooted (length (request_text req)) p
request_path-IsRooted (list_objects prefix) p e = move e (normal_form-IsRooted prefix)
request_path-IsRooted (upload_object path content) p e = move e (normal_form-IsRooted path)
request_path-IsRooted (download_object path) p e = move e (normal_form-IsRooted path)
request_path-IsRooted (initiate_upload target) p e = move e (normal_form-IsRooted target)
request_path-IsRooted complete_upload p e = move e root-IsRooted
request_path-IsRooted task_status p e = move e root-IsRooted
request_path-IsRooted (get_task task_id) p e = move e root-IsRooted
request_path-IsRooted (create_folder parent_path folder_name by) p e =
    move e (normal_form-IsRooted _)
request_path-IsRooted other p e = absurd (ground arith)

-- The answer for a path: the decision of `CanAccess`, or that no path can be extracted.
abbrev pub decided :
    {A : Type 0} → Option Text → AclStore → AuthContext → Permission → Reply A → Reply A
decided none store a perm next = rejected cannot_extract_path
decided (some path) store a perm next =
    if can_access_paths a (visited path) perm store then next else rejected access_denied

module _ {A : Type 0} (fuel : ℕ) (store : AclStore) (a : AuthContext) (perm : Permission)
    (req : Request) (next : Reply A) (enough : length (request_text req) + 2 < fuel) where
  -- Authorization of a mapped call: the access decision on the path of the request.
  pub authorize-eq :
      authorize fuel store a perm req next ≡ decided (request_path req) store a perm next
  unfolding authorize
  authorize-eq = elim (Option-cases (request_path req)) [
    | inl lost ↦ rw (extract_path-eq fuel req (omega arith), authorize, lost)
    | inr (path, found) ↦
        let r = request_path-IsRooted req path found in
        rw (
          extract_path-eq fuel req (omega arith),
          authorize,
          found,
          can_access-eq fuel a path perm store r.abs (omega (arith, r.short)),
        )
  ]

module _ {A : Type 0} (parse : Text → Result JwtError AuthContext) (fuel : ℕ) (store : AclStore)
    (full_method : Text) (handler : Context → Request → A) (ctx : Context) (req : Request) where
  -- The answer to a caller.
  abbrev pub answer_for : Option Permission → AuthContext → Reply A
  answer_for none a = replied (handler (with_auth_context ctx a) req)
  answer_for (some perm) a =
      decided (request_path req) store a perm (replied (handler (with_auth_context ctx a) req))

  -- The answer of the whole chain, with no fuel in it.
  abbrev pub answer : Result Rejection AuthContext → Reply A
  answer (err r) = rejected r
  answer (ok a) = answer_for (method_permission full_method) a

  decide_call-eq :
      (o : Option Permission) (a : AuthContext)
      → length (request_text req) + 2 < fuel
      → decide_call fuel store o a req (replied (handler (with_auth_context ctx a) req))
        ≡ answer_for o a
  decide_call-eq none a h = refl
  decide_call-eq (some perm) a h = authorize-eq fuel store a perm req _ h

  -- Every unary call gets its answer: a rejection for want of a valid token; else, for a method
  -- with a permission, the decision of `CanAccess` on the normalised path of the request; else,
  -- and after a grant, the handler's answer.
  pub unary_chain-eq-answer :
      length (request_text req) + 2 < fuel
      → unary_chain parse fuel store full_method handler ctx req ≡ answer (authenticate parse ctx)
  unary_chain-eq-answer h = elim (Result-cases (authenticate parse ctx)) [
    | inr (r, failed) ↦
        rw (unary_chain-err parse fuel store full_method handler ctx req r failed, failed)
    | inl (a, valid) ↦
        rw (unary_chain-ok parse fuel store full_method handler ctx req a valid, valid)
          (decide_call-eq (method_permission full_method) a h)
  ]
