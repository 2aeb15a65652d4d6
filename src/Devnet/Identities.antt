-- ===== src/Devnet/Identities.antt =====
-- What the merged list of an enclave's services holds, as a map by UUID.
use qrl_tests.Prelude.{
  ◌+◌, ◌≤◌, String, Bool, true, false, Option, none, some, List, [], ◌∷◌, ◌≡◌, refl, arith, map,
  str_eq, eq_iff, count_where, one_if, if◌then◌else◌, ap, ◌||◌, not, ◌&&◌,
}
use qrl_tests.Prelude.Order.{
  less_text_asym, sorted, insert_sorted, IsSorted, sorted-IsSorted, less_text,
}
use qrl_tests.Devnet.Inspection.{
  ServiceIdentity, ServiceIdentifiers, CurrentService, remove_identity, put_identity, put_all,
  matched, unmatched, unmatched_status, identity_less, merge_service_identities,
  service_port_bindings,
}

abbrev pub has_uuid : String → ServiceIdentity → Bool
has_uuid uuid identity = str_eq identity.uuid uuid

unfoldable pub find_identity : String → List ServiceIdentity → Option ServiceIdentity
find_identity uuid [] = none
find_identity uuid (identity ∷ rest) =
    if has_uuid uuid identity then some identity else find_identity uuid rest

-- The last of the identities that has the UUID; `before` if none does.
unfoldable pub latest :
    String → List ServiceIdentity → Option ServiceIdentity → Option ServiceIdentity
latest uuid [] before = before
latest uuid (identity ∷ rest) before =
    latest uuid rest (if has_uuid uuid identity then some identity else before)

find-remove :
    (uuid key : String) (by_uuid : List ServiceIdentity)
    → find_identity uuid (remove_identity key by_uuid)
      ≡ (if str_eq key uuid then none else find_identity uuid by_uuid)
unfolding find_identity remove_identity
find-remove uuid key [] = ground arith
find-remove uuid key (x ∷ rest) =
    ground
      (arith, find-remove uuid key rest, eq_iff x.uuid key, eq_iff key uuid, eq_iff x.uuid uuid)

count-remove :
    (uuid key : String) (by_uuid : List ServiceIdentity)
    → count_where (has_uuid uuid) (remove_identity key by_uuid)
      ≡ (if str_eq key uuid then 0 else count_where (has_uuid uuid) by_uuid)
unfolding remove_identity
count-remove uuid key [] = ground arith
count-remove uuid key (x ∷ rest) =
    ground
      (arith, count-remove uuid key rest, eq_iff x.uuid key, eq_iff key uuid, eq_iff x.uuid uuid)

find-put_all :
    (uuid : String) (added by_uuid : List ServiceIdentity)
    → find_identity uuid (put_all added by_uuid) ≡ latest uuid added (find_identity uuid by_uuid)
unfolding put_all put_identity find_identity latest
find-put_all uuid [] by_uuid = refl
find-put_all uuid (x ∷ added) by_uuid =
    rw (find-put_all uuid added (put_identity x by_uuid))
      (ap (latest uuid added) (ground (arith, find-remove uuid x.uuid by_uuid)))

count-put_all :
    (uuid : String) (added by_uuid : List ServiceIdentity)
    → count_where (has_uuid uuid) by_uuid ≤ 1
    → count_where (has_uuid uuid) (put_all added by_uuid) ≤ 1
unfolding put_all put_identity
count-put_all uuid [] by_uuid h = h
count-put_all uuid (x ∷ added) by_uuid h =
    count-put_all uuid added (put_identity x by_uuid)
      (ground (arith, h, count-remove uuid x.uuid by_uuid))

count-insert :
    (uuid : String) (x : ServiceIdentity) (xs : List ServiceIdentity)
    → count_where (has_uuid uuid) (insert_sorted identity_less x xs)
      ≡ one_if (has_uuid uuid x) + count_where (has_uuid uuid) xs
unfolding insert_sorted
count-insert uuid x [] = refl
count-insert uuid x (y ∷ rest) = ground (arith, count-insert uuid x rest)

count-sorted :
    (uuid : String) (xs : List ServiceIdentity)
    → count_where (has_uuid uuid) (sorted identity_less xs) ≡ count_where (has_uuid uuid) xs
unfolding sorted
count-sorted uuid [] = refl
count-sorted uuid (x ∷ rest) =
    omega (arith, count-insert uuid x (sorted identity_less rest), count-sorted uuid rest)

find_none :
    (uuid : String) (xs : List ServiceIdentity)
    → count_where (has_uuid uuid) xs ≡ 0
    → find_identity uuid xs ≡ none
unfolding find_identity
find_none uuid [] h = refl
find_none uuid (x ∷ rest) h = ground (arith, h, find_none uuid rest)

find-insert :
    (uuid : String) (x : ServiceIdentity) (xs : List ServiceIdentity)
    → one_if (has_uuid uuid x) + count_where (has_uuid uuid) xs ≤ 1
    → find_identity uuid (insert_sorted identity_less x xs) ≡ find_identity uuid (x ∷ xs)
unfolding insert_sorted find_identity
find-insert uuid x [] h = refl
find-insert uuid x (y ∷ rest) h = ground (arith, h, find-insert uuid x rest)

find-sorted :
    (uuid : String) (xs : List ServiceIdentity)
    → count_where (has_uuid uuid) xs ≤ 1
    → find_identity uuid (sorted identity_less xs) ≡ find_identity uuid xs
unfolding sorted find_identity
find-sorted uuid [] h = refl
find-sorted uuid (x ∷ rest) h = ground (
  arith,
  h,
  find-insert uuid x (sorted identity_less rest),
  count-sorted uuid rest,
  find-sorted uuid rest,
)

identity_less_asym : (a b : ServiceIdentity) → identity_less a b ≡ true → identity_less b a ≡ false
unfolding identity_less
identity_less_asym a b h =
    ground (arith, h, less_text_asym a.name b.name, less_text_asym a.uuid b.uuid)

-- The merged services are a map by UUID, as a list: at most one has a given UUID, and it is the last
-- of the current services that has it, with its container's status and its port bindings; else the
-- last of the identifiers that has it, with unknown ports, as historical if the current ones are
-- complete and as unknown if not. They are sorted by name, then by UUID.
pub merge_service_identities_lem :
    (identifiers : List ServiceIdentifiers) (current : List CurrentService) (complete : Bool)
    (uuid : String)
    → (find_identity uuid (merge_service_identities identifiers current complete)
        ≡ latest uuid
            (map
              (λ service. record {
                name = service.name;
                uuid = service.service_uuid;
                status = service.container_status;
                ports = service_port_bindings service;
              })
              current)
            (latest uuid
              (map
                (λ identifier. record {
                  name = identifier.name;
                  uuid = identifier.service_uuid;
                  status = if complete then "HISTORICAL" else "UNKNOWN";
                  ports = "<unknown>" ∷ [];
                })
                identifiers)
              none))
      × (count_where (has_uuid uuid) (merge_service_identities identifiers current complete) ≤ 1)
      × IsSorted
          (λ a b.
            less_text a.name b.name || (not (less_text b.name a.name) && less_text a.uuid b.uuid))
          (merge_service_identities identifiers current complete)
unfolding merge_service_identities find_identity identity_less matched
merge_service_identities_lem identifiers current complete uuid =
    let old = put_all (map (unmatched (unmatched_status complete)) identifiers) [] in
    let all = put_all (map matched current) old in
    let once : count_where (has_uuid uuid) all ≤ 1 = count-put_all uuid (map matched current) old (
      count-put_all uuid (map (unmatched (unmatched_status complete)) identifiers) []
        (omega arith)) in
    (
      rw
          (
            find-sorted uuid all once,
            find-put_all uuid (map matched current) old,
            find-put_all uuid (map (unmatched (unmatched_status complete)) identifiers) [],
          )
          refl,
      omega (arith, count-sorted uuid all, once),
      sorted-IsSorted identity_less identity_less_asym all,
    )
