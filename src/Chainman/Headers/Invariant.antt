-- ===== src/Chainman/Headers/Invariant.antt =====
-- Applying a header keeps the header chain a tree whose top has the most work.
use bitlens_rs.Prelude.{
  ℕ, ◌+◌, ◌≤◌, ◌<◌, ◌≡◌, refl, sym, ap, ◌∙◌, ◌⊎◌, inl, inr, Bool, true, false, Option, none, some,
  arith, ltb, ◌==◌, Bool-cases, Option-cases, bytes_eq, Result, Error, ok, no_parent,
  invalid_difficulty, unwrap, ok_or, guard, >>=-eq-ok,
}
use bitlens_rs.Util.U256.{U256}
use bitlens_rs.Packets.Buffer.{Bytes}
use bitlens_rs.Packets.BlockHeader.{BlockHeader, get_work}
use bitlens_rs.Chainman.Chain.{
  BlockHeaderWithNumber, Chain, HeaderApplicationResult, insert_hash, get_next_bits_required,
}
use bitlens_rs.Chainman.Chain.Ancestors.{
  Known, IsStored, IsTree, IsChain, insert_hash_other, insert_hash_self, insert_hash_cases,
}
use bitlens_rs.Chainman.Walks.{calculate_downloaded_blocks}
use bitlens_rs.Chainman.Headers.{
  State, visit_fork, apply_fork, become_top, apply_known, number_header, store_header, apply_fresh,
  validate_and_apply_header_inner,
}

ok_or-some {ℓ} : {A : Type ℓ} (o : Option A) (x : Error) (a : A) → ok_or o x ≡ ok a → o ≡ some a
ok_or-some none x a e = cc
ok_or-some (some b) x a e = cc

-- A fresh header stored behind its parent.
module _ {root : Bytes} {known : Known} (tree : IsTree root known) (h p : BlockHeaderWithNumber)
    (fresh : known h.header.hash ≡ none) (behind : known h.header.parent ≡ some p)
    (next : h.number ≡ p.number + 1) where
  abbrev stored : Known
  stored = insert_hash h.header.hash h known

  keep_link :
      (hash : Bytes) (e : BlockHeaderWithNumber)
      → IsStored root known hash e
      → IsStored root stored hash e
  keep_link hash e s = record {
    under_hash = s.under_hash;
    linked = elim s.linked [
      | inl r ↦ inl r
      | inr (q, kq, n) ↦
          inr (q, insert_hash_other h.header.hash e.header.parent h q known fresh kq, n)
    ];
  }

  pub IsTree-insert : IsTree root stored
  IsTree-insert hash e found = elim (insert_hash_cases h.header.hash hash h e known found) [
    | inl (same, is) ↦ record {
      under_hash = cc;
      linked = inr (
        p,
        ap stored (sym (ap (λ (x : BlockHeaderWithNumber). x.header.parent) is))
            ∙ insert_hash_other h.header.hash h.header.parent h p known fresh behind,
        ap (λ (x : BlockHeaderWithNumber). x.number) (sym is) ∙ next,
      );
    }
    | inr old ↦ keep_link hash e (tree hash e old)
  ]

pub number_header_lem :
    (u : U256) (header : BlockHeader) (p h : BlockHeaderWithNumber)
    → number_header u header p ≡ ok h
    → (h.header ≡ header) × (h.number ≡ p.number + 1) × (h.fetched_full ≡ false)
unfolding number_header
number_header_lem u header p h e =
    let (w, ew, e') = >>=-eq-ok (get_work u header.bits) _ e in
    let (t, et, e'') = >>=-eq-ok (unwrap (u.add p.total_work w)) _ e' in ground arith

-- The stored state becomes a chain if its top is the old one and has more work, or is the new header
-- and has no less.
module _ {root : Bytes} (chain : Chain) (c : IsChain root chain) (h p : BlockHeaderWithNumber)
    (fresh : chain.known_headers h.header.hash ≡ none)
    (behind : chain.known_headers h.header.parent ≡ some p) (next : h.number ≡ p.number + 1) where
  IsChain-keep_top :
      h.total_work ≤ chain.top_header.total_work
      → IsChain root
          (record chain { known_headers = insert_hash h.header.hash h chain.known_headers })
  IsChain-keep_top w = record {
    tree = IsTree-insert c.tree h p fresh behind next;
    top = c.top;
    top_known =
        insert_hash_other h.header.hash chain.top_header.header.hash h c.top chain.known_headers
          fresh c.top_known;
    top_same = c.top_same;
    best = λ hash e found.
        elim (insert_hash_cases h.header.hash hash h e chain.known_headers found) [
          | inl (same, is) ↦
              let w' = ap (λ (x : BlockHeaderWithNumber). x.total_work) is in omega arith
          | inr old ↦ c.best hash e old
        ];
  }

  IsChain-new_top :
      chain.top_header.total_work ≤ h.total_work
      → IsChain root (record chain {
        known_headers = insert_hash h.header.hash h chain.known_headers;
        top_header = h;
      })
  IsChain-new_top w = record {
    tree = IsTree-insert c.tree h p fresh behind next;
    top = h;
    top_known = insert_hash_self h.header.hash h chain.known_headers;
    top_same = record { header_eq = refl; number_eq = refl; fetched_eq = refl; work_eq = refl };
    best = λ hash e found.
        elim (insert_hash_cases h.header.hash hash h e chain.known_headers found) [
          | inl (same, is) ↦
              let w' = ap (λ (x : BlockHeaderWithNumber). x.total_work) is in omega arith
          | inr old ↦ let w' = c.best hash e old in omega arith
        ];
  }

abbrev Outcome : Type 0
Outcome = Result (State × Option HeaderApplicationResult)

ok_chain :
    {t s' : State} {o r : Option HeaderApplicationResult}
    → ◌≡◌ {A = Outcome} (ok (t, o)) (ok (s', r))
    → s'.chain ≡ t.chain
ok_chain e = cc

apply_fork_chain :
    (s s' : State) (h : BlockHeaderWithNumber) (n : ℕ) (r : Option HeaderApplicationResult)
    → apply_fork s h n ≡ ok (s', r)
    → s'.chain ≡ record s.chain { top_header = h }
unfolding apply_fork
apply_fork_chain s s' h n r e =
    let (visited, e₁, e₂) =
      >>=-eq-ok (visit_fork s.chain.known_headers s.chain.top_header h n) _ e in
    let (count, e₃, e₄) =
      >>=-eq-ok (calculate_downloaded_blocks (record s.chain { top_header = h })) _ e₂ in
    ok_chain e₄

become_top_chain :
    (s s' : State) (h : BlockHeaderWithNumber) (n : ℕ) (sync : Bool)
    (r : Option HeaderApplicationResult)
    → become_top s h n sync ≡ ok (s', r)
    → s'.chain ≡ record s.chain { top_header = h }
unfolding become_top
become_top_chain s s' h n true r e = ok_chain e
become_top_chain s s' h n false r e =
    elim (Bool-cases (bytes_eq h.header.parent s.chain.top_header.header.hash)) [
      | inl extends ↦ ok_chain (rw extends at e)
      | inr forks ↦ apply_fork_chain s s' h n r (rw forks at e)
    ]

-- What `apply_known` leaves of the chain: it is as stored, with the old top or the new header as top.
apply_known_chain :
    (s s' : State) (h : BlockHeaderWithNumber) (n : ℕ) (sync : Bool)
    (r : Option HeaderApplicationResult)
    → apply_known s h n sync ≡ ok (s', r)
    → ((s'.chain ≡ s.chain) × (h.total_work < s.chain.top_header.total_work))
      ⊎ ((s'.chain ≡ record s.chain { top_header = h })
          × (s.chain.top_header.total_work ≤ h.total_work))
unfolding apply_known
apply_known_chain s s' h n sync r e =
    elim (Bool-cases (ltb h.total_work s.chain.top_header.total_work)) [
      | inl less ↦ inl (ok_chain (rw less at e), ground arith)
      | inr more ↦ inr (become_top_chain s s' h n sync r (rw more at e), ground arith)
    ]

-- A header that was applied is stored behind its parent, and the top is the one with more work.
pub record Stored (s s' : State) : Type 0 where
  pub h : BlockHeaderWithNumber
  pub p : BlockHeaderWithNumber
  pub fresh : s.chain.known_headers h.header.hash ≡ none
  pub behind : s.chain.known_headers h.header.parent ≡ some p
  pub next : h.number ≡ p.number + 1
  pub result :
      ((s'.chain ≡ (store_header s h).chain) × (h.total_work < s.chain.top_header.total_work))
      ⊎ ((s'.chain ≡ record (store_header s h).chain { top_header = h })
          × (s.chain.top_header.total_work ≤ h.total_work))

apply_fresh-Stored :
    (u : U256) (header : BlockHeader) (s s' : State) (sync : Bool)
    (r : Option HeaderApplicationResult)
    → s.chain.known_headers header.hash ≡ none
    → apply_fresh u header s sync ≡ ok (s', r)
    → Stored s s'
unfolding apply_fresh
apply_fresh-Stored u header s s' sync r new e =
    let known = s.chain.known_headers in
    let (p, e₁, f₁) = >>=-eq-ok (ok_or (known header.parent) no_parent) _ e in
    let (bits, e₂, f₂) = >>=-eq-ok (get_next_bits_required u s.chain p) _ f₁ in
    let (_, e₃, f₃) = >>=-eq-ok (guard (bits == header.bits) invalid_difficulty) _ f₂ in
    let (h, e₄, f₄) = >>=-eq-ok (number_header u header p) _ f₃ in
    let (is, next, _) = number_header_lem u header p h e₄ in
    record {
      h = h;
      p = p;
      fresh = rw is new;
      behind = rw is (ok_or-some (known header.parent) no_parent p e₁);
      next = next;
      result = apply_known_chain (store_header s h) s' h p.number sync r f₄;
    }

-- A header is known already and nothing changes, or it is stored.
pub validate_and_apply_header_inner-Stored :
    (u : U256) (header : BlockHeader) (s s' : State) (sync : Bool)
    (r : Option HeaderApplicationResult)
    → validate_and_apply_header_inner u header s sync ≡ ok (s', r)
    → (s'.chain ≡ s.chain) ⊎ Stored s s'
unfolding validate_and_apply_header_inner
validate_and_apply_header_inner-Stored u header s s' sync r e =
    elim (Option-cases (s.chain.known_headers header.hash)) [
      | inl new ↦ inr (
          apply_fresh-Stored u header s s' sync r new
            (rw (new, validate_and_apply_header_inner) at e))
      | inr (old, known) ↦ inl (ok_chain (rw (known, validate_and_apply_header_inner) at e))
    ]

-- A header that is applied to a header chain without an error or a panic, in the header sync or after
-- it, leaves a header chain: a tree whose numbers count from the root, whose top is known and has the most work.
pub validate_and_apply_header_inner-IsChain :
    (u : U256) (root : Bytes) (header : BlockHeader) (s s' : State) (sync : Bool)
    (r : Option HeaderApplicationResult)
    → IsChain root s.chain
    → validate_and_apply_header_inner u header s sync ≡ ok (s', r)
    → IsChain root s'.chain
validate_and_apply_header_inner-IsChain u root header s s' sync r c e =
    elim (validate_and_apply_header_inner-Stored u header s s' sync r e) [
      | inl same ↦ rw same c
      | inr stored ↦
          let h = stored.h in
          let p = stored.p in
          elim stored.result [
            | inl (same, less) ↦ rw same (
                IsChain-keep_top s.chain c h p stored.fresh stored.behind stored.next (omega arith))
            | inr (top, more) ↦
                rw top (IsChain-new_top s.chain c h p stored.fresh stored.behind stored.next more)
          ]
    ]
