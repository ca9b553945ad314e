-- ===== src/Chainman/Downloads/Updates.antt =====
-- What marks change of the known headers, and what they keep.
use bitlens_rs.Prelude.{
  ◌+◌, ◌≡◌, refl, sym, ap, subst, ◌∙◌, inl, inr, true, some, Bool-cases, bytes_eq, bytes_eq→eq,
}
use bitlens_rs.Packets.Buffer.{Bytes}
use bitlens_rs.Chainman.Chain.{BlockHeaderWithNumber, insert_hash}
use bitlens_rs.Chainman.Chain.Ancestors.{
  Known, IsTree, insert_hash_self, insert_hash_elsewhere, insert_hash_cases,
}

-- An entry after marks: what identifies the header stays, and a fetched block stays fetched.
pub record Marks (e e' : BlockHeaderWithNumber) : Type 0 where
  pub header_eq : e'.header ≡ e.header
  pub number_eq : e'.number ≡ e.number
  pub work_eq : e'.total_work ≡ e.total_work
  pub still_fetched : e.fetched_full ≡ true → e'.fetched_full ≡ true

-- The same headers are known, marked or not.
pub record Updates (known known' : Known) : Type 0 where
  pub forth :
      (hash : Bytes) (e : BlockHeaderWithNumber)
      → known hash ≡ some e
      → (e' : BlockHeaderWithNumber) × (known' hash ≡ some e') × Marks e e'
  pub back :
      (hash : Bytes) (e' : BlockHeaderWithNumber)
      → known' hash ≡ some e'
      → (e : BlockHeaderWithNumber) × (known hash ≡ some e) × Marks e e'

pub Marks-refl : (e : BlockHeaderWithNumber) → Marks e e
Marks-refl e = record { header_eq = refl; number_eq = refl; work_eq = refl; still_fetched = λ f. f }

pub Marks-trans : {a b c : BlockHeaderWithNumber} → Marks a b → Marks b c → Marks a c
Marks-trans m n = record {
  header_eq = n.header_eq ∙ m.header_eq;
  number_eq = n.number_eq ∙ m.number_eq;
  work_eq = n.work_eq ∙ m.work_eq;
  still_fetched = λ f. n.still_fetched (m.still_fetched f);
}

pub marks_lem :
    (e : BlockHeaderWithNumber) (text : Bytes)
    → Marks e (record e { fetched_full = true; coinbase_ascii = some text })
marks_lem e text = record {
  header_eq = refl;
  number_eq = refl;
  work_eq = refl;
  still_fetched = λ f. refl;
}

pub Updates-refl : (known : Known) → Updates known known
Updates-refl known = record {
  forth = λ hash e k. (e, k, Marks-refl e);
  back = λ hash e k. (e, k, Marks-refl e);
}

pub Updates-trans : {a b c : Known} → Updates a b → Updates b c → Updates a c
Updates-trans u v = record {
  forth = λ hash e k.
      let (e₁, k₁, m₁) = u.forth hash e k in
      let (e₂, k₂, m₂) = v.forth hash e₁ k₁ in (e₂, k₂, Marks-trans m₁ m₂);
  back = λ hash e k.
      let (e₁, k₁, m₁) = v.back hash e k in
      let (e₂, k₂, m₂) = u.back hash e₁ k₁ in (e₂, k₂, Marks-trans m₂ m₁);
}

-- A known entry is replaced by a marked one.
pub Updates-insert :
    (known : Known) (hash : Bytes) (e e' : BlockHeaderWithNumber)
    → known hash ≡ some e
    → Marks e e'
    → Updates known (insert_hash hash e' known)
Updates-insert known hash e e' k m = record {
  forth = λ j f found. elim (Bool-cases (bytes_eq hash j)) [
    | inl same ↦
        let j_is = bytes_eq→eq hash j same in
        let is : e ≡ f = cc (k, found, ap known j_is) in
        (
          e',
          subst (λ i. insert_hash hash e' known i ≡ some e') j_is (insert_hash_self hash e' known),
          subst (λ x. Marks x e') is m,
        )
    | inr other ↦ (f, insert_hash_elsewhere hash j e' known other ∙ found, Marks-refl f)
  ];
  back = λ j f found. elim (insert_hash_cases hash j e' f known found) [
    | inl (same, is) ↦ (e, ap known (sym same) ∙ k, subst (Marks e) is m)
    | inr old ↦ (f, old, Marks-refl f)
  ];
}

module _ {root : Bytes} {known known' : Known} (u : Updates known known') where
  pub IsTree-Updates : IsTree root known → IsTree root known'
  IsTree-Updates tree hash e' k' =
      let (e, k, m) = u.back hash e' k' in
      let stored = tree hash e k in
      record {
        under_hash = ap (λ h. h.hash) m.header_eq ∙ stored.under_hash;
        linked = elim stored.linked [
          | inl (z, is) ↦ inl (m.number_eq ∙ z, is)
          | inr (p, kp, n) ↦
              let (p', kp', mp) = u.forth e.header.parent p kp in
              inr (
                p',
                ap (λ h. known' h.parent) m.header_eq ∙ kp',
                m.number_eq ∙ n ∙ ap (λ i. i + 1) (sym mp.number_eq),
              )
        ];
      }
