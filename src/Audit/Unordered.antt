-- ===== src/Audit/Unordered.antt =====
-- The evidence root and the contract of a manifest do not depend on the order of its artifacts.
use acvjepa_project.Prelude.Int.{ℤ, leb_ℤ, max_ℤ, int_eq}
use acvjepa_project.Prelude.Reordered.{
  Reordered, none_left, keep, swap, chain, same_order, sort-Reordered,
}
use acvjepa_project.Prelude.{
  if◌then◌else◌, Bool-cases, string_eq, nat_eq, ◌==◌, length, is_empty, all, contains, set_size, ok,
  Result-cases, suc, String, ◌≡◌, refl, sym, ap, ◌∙◌, fun_ext, inl, inr, Bool, ◌&&◌, ◌||◌, List,
  ◌∷◌, arith, eq_iff,
}
use acvjepa_project.Audit.Types.{
  Crypto, required_modalities, merkle_root, EvidenceArtifact, leaf_hash, validate_artifact,
  validate_artifacts, EvidenceManifest, modalities, timed, latest_start, earliest_end,
  check_overlap, tolerance_ns, validate_multimodal_contract, leaf_hashes, evidence_root,
}

leaf_hashes-Reordered :
    (c : Crypto) {l m : List EvidenceArtifact}
    → Reordered l m
    → Reordered (leaf_hashes c l) (leaf_hashes c m)
leaf_hashes-Reordered c none_left = none_left
leaf_hashes-Reordered c (keep x r) = keep (leaf_hash c x) (leaf_hashes-Reordered c r)
leaf_hashes-Reordered c (swap x y l) = swap (leaf_hash c x) (leaf_hash c y) (leaf_hashes c l)
leaf_hashes-Reordered c (chain r q) = chain (leaf_hashes-Reordered c r) (leaf_hashes-Reordered c q)

timed-Reordered : {l m : List EvidenceArtifact} → Reordered l m → Reordered (timed l) (timed m)
timed-Reordered none_left = none_left
timed-Reordered (keep x r) = elim (Bool-cases (x.modality == "calibration")) [
  | inl e ↦ rw e (timed-Reordered r)
  | inr e ↦ rw e (keep x (timed-Reordered r))
]
timed-Reordered (swap x y l) = elim (Bool-cases (x.modality == "calibration")) [
  | inl e ↦ elim (Bool-cases (y.modality == "calibration")) [
    | inl f ↦ rw (e, f) (same_order (timed l))
    | inr f ↦ rw (e, f) (same_order (y ∷ timed l))
  ]
  | inr e ↦ elim (Bool-cases (y.modality == "calibration")) [
    | inl f ↦ rw (e, f) (same_order (x ∷ timed l))
    | inr f ↦ rw (e, f) (swap x y (timed l))
  ]
]
timed-Reordered (chain r q) = chain (timed-Reordered r) (timed-Reordered q)

latest-Reordered :
    {l m : List EvidenceArtifact} → Reordered l m → (t : ℤ) → latest_start t l ≡ latest_start t m
latest-Reordered none_left t = refl
latest-Reordered (keep x r) t = latest-Reordered r (max_ℤ t x.start_ns)
latest-Reordered (swap x y l) t =
    let same : max_ℤ (max_ℤ t x.start_ns) y.start_ns ≡ max_ℤ (max_ℤ t y.start_ns) x.start_ns =
      ground arith in
    ap (λ (u : ℤ). latest_start u l) same
latest-Reordered (chain r q) t = latest-Reordered r t ∙ latest-Reordered q t

abbrev sooner : ℤ → ℤ → ℤ
sooner t u = if leb_ℤ t u then t else u

earliest-Reordered :
    {l m : List EvidenceArtifact} → Reordered l m → (t : ℤ) → earliest_end t l ≡ earliest_end t m
earliest-Reordered none_left t = refl
earliest-Reordered (keep x r) t = earliest-Reordered r (sooner t x.end_ns)
earliest-Reordered (swap x y l) t =
    let same : sooner (sooner t x.end_ns) y.end_ns ≡ sooner (sooner t y.end_ns) x.end_ns =
      ground arith in
    ap (λ (u : ℤ). earliest_end u l) same
earliest-Reordered (chain r q) t = earliest-Reordered r t ∙ earliest-Reordered q t

check_overlap-Reordered :
    (tolerance : ℤ) {l m : List EvidenceArtifact}
    → Reordered l m
    → check_overlap tolerance l ≡ check_overlap tolerance m
check_overlap-Reordered tolerance none_left = refl
check_overlap-Reordered tolerance (keep x r) =
    rw (latest-Reordered r x.start_ns, earliest-Reordered r x.end_ns) refl
check_overlap-Reordered tolerance (swap x y l) =
    let starts : max_ℤ x.start_ns y.start_ns ≡ max_ℤ y.start_ns x.start_ns = ground arith in
    let ends : sooner x.end_ns y.end_ns ≡ sooner y.end_ns x.end_ns = ground arith in
    rw (starts, ends) refl
check_overlap-Reordered tolerance (chain r q) =
    check_overlap-Reordered tolerance r ∙ check_overlap-Reordered tolerance q

-- The artifacts are valid in one order as in the other.
validate_artifacts-Reordered :
    {l m : List EvidenceArtifact}
    → Reordered l m
    → validate_artifacts l ≡ ok tt
    → validate_artifacts m ≡ ok tt
validate_artifacts-Reordered none_left h = h
validate_artifacts-Reordered (keep x r) h = elim (Result-cases (validate_artifact x)) [
  | inr (e, bad) ↦ absurd (ground arith)
  | inl (u, good) ↦
      rw (validate_artifacts, good)
        (validate_artifacts-Reordered r (rw (validate_artifacts, good) at h))
]
validate_artifacts-Reordered (swap x y l) h = ground arith
validate_artifacts-Reordered (chain r q) h =
    validate_artifacts-Reordered q (validate_artifacts-Reordered r h)

contains-Reordered :
    (t : String) {l m : List EvidenceArtifact}
    → Reordered l m
    → contains (modalities l) t ≡ contains (modalities m) t
contains-Reordered t none_left = refl
contains-Reordered t (keep x r) = ap (λ b. t == x.modality || b) (contains-Reordered t r)
contains-Reordered t (swap x y l) = ground arith
contains-Reordered t (chain r q) = contains-Reordered t r ∙ contains-Reordered t q

set_size-Reordered :
    {l m : List EvidenceArtifact}
    → Reordered l m
    → set_size (modalities l) ≡ set_size (modalities m)
set_size-Reordered none_left = refl
set_size-Reordered (keep x r) = rw (contains-Reordered x.modality r, set_size-Reordered r) refl
set_size-Reordered (swap x y l) =
    ground (arith, eq_iff x.modality y.modality, eq_iff y.modality x.modality)
set_size-Reordered (chain r q) = set_size-Reordered r ∙ set_size-Reordered q

length-Reordered : {A : Type 0} {l m : List A} → Reordered l m → length l ≡ length m
length-Reordered none_left = refl
length-Reordered (keep x r) = ap suc (length-Reordered r)
length-Reordered (swap x y l) = refl
length-Reordered (chain r q) = length-Reordered r ∙ length-Reordered q

is_empty-Reordered : {A : Type 0} {l m : List A} → Reordered l m → is_empty l ≡ is_empty m
is_empty-Reordered none_left = refl
is_empty-Reordered (keep x r) = refl
is_empty-Reordered (swap x y l) = refl
is_empty-Reordered (chain r q) = is_empty-Reordered r ∙ is_empty-Reordered q

all-Reordered : {A : Type 0} (p : A → Bool) {l m : List A} → Reordered l m → all p l ≡ all p m
all-Reordered p none_left = refl
all-Reordered p (keep x r) = ap (λ b. p x && b) (all-Reordered p r)
all-Reordered p (swap x y l) = ground arith
all-Reordered p (chain r q) = all-Reordered p r ∙ all-Reordered p q

merkle_root-Reordered :
    (c : Crypto) {l m : List String} → Reordered l m → merkle_root c l ≡ merkle_root c m
unfolding merkle_root
merkle_root-Reordered c r =
    rw (is_empty-Reordered r, all-Reordered c.valid_hex r, length-Reordered r, sort-Reordered r)
      refl

module _ (m : EvidenceManifest) (l : List EvidenceArtifact) (r : Reordered m.artifacts l) where
  contract-unordered :
      validate_multimodal_contract m ≡ ok tt
      → validate_multimodal_contract (record m { artifacts = l }) ≡ ok tt
  unfolding validate_multimodal_contract
  contract-unordered h =
      let all_same : all (contains (modalities l)) required_modalities
          ≡ all (contains (modalities m.artifacts)) required_modalities =
        ap (λ f. all f required_modalities) (fun_ext (λ t. sym (contains-Reordered t r))) in
      let size = set_size-Reordered r in
      let count = length-Reordered r in
      let valid : validate_artifacts m.artifacts ≡ ok tt = ground arith in
      let valid' = validate_artifacts-Reordered r valid in
      let overlap = check_overlap-Reordered tolerance_ns (timed-Reordered r) in
      ground (arith, all_same, size, count, valid, valid', overlap, h)

  -- A manifest with its artifacts in another order has the same evidence root.
  pub evidence_root-unordered :
      (c : Crypto) (root : String)
      → evidence_root c m ≡ ok root
      → evidence_root c (record m { artifacts = l }) ≡ ok root
  unfolding evidence_root
  evidence_root-unordered c root h = elim (Result-cases (validate_multimodal_contract m)) [
    | inr (e, bad) ↦ absurd (ground arith)
    | inl (u, good) ↦ ground (
      arith,
      good,
      contract-unordered (good ∙ ap ok refl),
      merkle_root-Reordered c (leaf_hashes-Reordered c r),
      h,
    )
  ]
