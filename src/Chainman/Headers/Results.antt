-- ===== src/Chainman/Headers/Results.antt =====
-- What a header's application reports, outside of the header sync.
use bitlens_rs.Prelude.{
  ◌≡◌, refl, subst, ◌⊎◌, inl, inr, false, some, [], ◌∷◌, reverse, ltb, ◌==◌, bytes_eq, Bool-cases,
  Option-cases, ok, guard, ok_or, no_parent, invalid_difficulty, >>=-eq-ok,
}
use bitlens_rs.Util.U256.{U256}
use bitlens_rs.Packets.BlockHeader.{BlockHeader}
use bitlens_rs.Chainman.Chain.{
  BlockHeaderWithNumber, HeaderApplicationResult, get_next_bits_required,
}
use bitlens_rs.Chainman.Chain.Ancestors.{insert_hash_self}
use bitlens_rs.Chainman.Headers.{
  State, Visited, visit_fork, apply_fork, become_top, apply_known, number_header, store_header,
  apply_fresh, validate_and_apply_header_inner,
}
use bitlens_rs.Chainman.Headers.Invariant.{number_header_lem}
use bitlens_rs.Chainman.Walks.{calculate_downloaded_blocks}

-- The added blocks: the new header alone, or the new branch from its lowest block up.
pub record Reported (header : BlockHeader) (s' : State) (r : HeaderApplicationResult) : Type 0 where
  pub h : BlockHeaderWithNumber
  pub is_header : h.header ≡ header
  pub is_top : s'.chain.top_header ≡ h
  pub is_known : s'.chain.known_headers h.header.hash ≡ some h
  pub added :
      (r.added_blocks ≡ (h.header.hash, h.number) ∷ [])
      ⊎ ((top : BlockHeaderWithNumber) × (new old : Visited) × (parent_number : _) × (visit_fork
              s'.chain.known_headers top h parent_number
            ≡ ok (new, old))
          × (r.added_blocks ≡ reverse new))

become_top-Reported :
    (s s' : State) (h : BlockHeaderWithNumber) (parent_number : _) (r : HeaderApplicationResult)
    → s.chain.known_headers h.header.hash ≡ some h
    → become_top s h parent_number false ≡ ok (s', some r)
    → Reported h.header s' r
unfolding become_top apply_fork
become_top-Reported s s' h parent_number r k e =
    elim (Bool-cases (bytes_eq h.header.parent s.chain.top_header.header.hash)) [
      | inl extends ↦
          let e' = rw extends at e in
          let same : record s { chain = record s.chain { top_header = h } } ≡ s' = cc in
          let is : r.added_blocks ≡ (h.header.hash, h.number) ∷ [] = cc in
          record {
            h = h;
            is_header = refl;
            is_top = rw (← same) refl;
            is_known = rw (← same) k;
            added = inl is;
          }
      | inr forks ↦
          let e' = rw forks at e in
          let ((new, old), visited, e₁) =
            >>=-eq-ok (visit_fork s.chain.known_headers s.chain.top_header h parent_number) _ e' in
          let (count, counted, e₂) =
            >>=-eq-ok (calculate_downloaded_blocks (record s.chain { top_header = h })) _ e₁ in
          let same : record s {
            chain = record s.chain { top_header = h };
            downloaded_blocks = count;
          }
              ≡ s' =
            cc in
          let is : r.added_blocks ≡ reverse new = cc in
          record {
            h = h;
            is_header = refl;
            is_top = rw (← same) refl;
            is_known = rw (← same) k;
            added = inr (s.chain.top_header, new, old, parent_number, rw (← same) visited, is);
          }
    ]

apply_known-Reported :
    (s s' : State) (h : BlockHeaderWithNumber) (parent_number : _) (r : HeaderApplicationResult)
    → s.chain.known_headers h.header.hash ≡ some h
    → apply_known s h parent_number false ≡ ok (s', some r)
    → Reported h.header s' r
unfolding apply_known
apply_known-Reported s s' h parent_number r k e =
    elim (Bool-cases (ltb h.total_work s.chain.top_header.total_work)) [
      | inl less ↦ let e' = rw less at e in cc
      | inr more ↦ become_top-Reported s s' h parent_number r k (rw more at e)
    ]

-- A result that is reported names the new header as the top, and the blocks added.
pub validate_and_apply_header_inner-Reported :
    (u : U256) (header : BlockHeader) (s s' : State) (r : HeaderApplicationResult)
    → validate_and_apply_header_inner u header s false ≡ ok (s', some r)
    → Reported header s' r
unfolding validate_and_apply_header_inner apply_fresh number_header
validate_and_apply_header_inner-Reported u header s s' r e =
    elim (Option-cases (s.chain.known_headers header.hash)) [
      | inr (old, known) ↦ let e' = rw (known, validate_and_apply_header_inner) at e in cc
      | inl new ↦
          let e₀ = rw (new, validate_and_apply_header_inner) at e in
          let (p, e₁, f₁) =
            >>=-eq-ok (ok_or (s.chain.known_headers header.parent) no_parent) _ e₀ in
          let (bits, e₂, f₂) = >>=-eq-ok (get_next_bits_required u s.chain p) _ f₁ in
          let (_, e₃, f₃) = >>=-eq-ok (guard (bits == header.bits) invalid_difficulty) _ f₂ in
          let (h, e₄, f₄) = >>=-eq-ok (number_header u header p) _ f₃ in
          let (is, _, _) = number_header_lem u header p h e₄ in
          subst (λ x. Reported x s' r) is
            (apply_known-Reported (store_header s h) s' h p.number r
              (insert_hash_self h.header.hash h s.chain.known_headers) f₄)
    ]
