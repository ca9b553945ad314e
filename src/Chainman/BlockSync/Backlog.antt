-- ===== src/Chainman/BlockSync/Backlog.antt =====
-- The backlog: its order, and what is passed on of it.
use bitlens_rs.Prelude.{
  ℕ, ◌+◌, ◌-◌, ◌^◌, ◌≤◌, ◌<◌, ◌≡◌, refl, sym, ◌⊎◌, inl, inr, true, false, none, some, List, [], ◌∷◌,
  ◌++◌, arith, ◌==◌, ltb, Bool-cases, Option-cases, length, length-append, add_usize,
}
use bitlens_rs.Chainman.BlockSync.Master.{
  BlockWithNumber, Flush, send, binary_search, insert, keep_for_later, apply_from_backlog,
}

module _ {P : Type 0} where
  -- The numbers go up, from above `low`.
  abbrev pub Above : ℕ → List (BlockWithNumber P) → Type 0
  Above low [] = Unit
  Above low ((payload, n) ∷ blocks) = (low < n) × Above n blocks

  abbrev pub Held : ℕ → List (BlockWithNumber P) → Type 0
  Held number [] = ⊥
  Held number ((payload, n) ∷ blocks) = (n ≡ number) ⊎ Held number blocks

  pub Above-weaken :
      (low low' : ℕ) (blocks : List (BlockWithNumber P))
      → low' ≤ low
      → Above low blocks
      → Above low' blocks
  Above-weaken low low' [] le h = tt
  Above-weaken low low' ((payload, n) ∷ blocks) le (h, hs) = (omega arith, hs)

  pub Above-Held :
      (low number : ℕ) (blocks : List (BlockWithNumber P))
      → Above low blocks
      → Held number blocks
      → low < number
  Above-Held low number [] h held = absurd held
  Above-Held low number ((payload, n) ∷ blocks) (h, hs) (inl e) = omega arith
  Above-Held low number ((payload, n) ∷ blocks) (h, hs) (inr held) =
      let more = Above-Held n number blocks hs held in omega arith

  -- Blocks that satisfy `Good`, with consecutive numbers.
  module _ (Good : P → ℕ → Type 0) where
    abbrev pub InOrder : ℕ → List (BlockWithNumber P) → Type 0
    InOrder number [] = Unit
    InOrder number ((payload, n) ∷ blocks) =
        (n ≡ number) × Good payload n × InOrder (number + 1) blocks

    abbrev pub AllGood : List (BlockWithNumber P) → Type 0
    AllGood [] = Unit
    AllGood ((payload, n) ∷ blocks) = Good payload n × AllGood blocks

    pub InOrder-snoc :
        (number n : ℕ) (payload : P) (blocks : List (BlockWithNumber P))
        → InOrder number blocks
        → n ≡ number + length blocks
        → Good payload n
        → InOrder number (blocks ++ ((payload, n) ∷ []))
    InOrder-snoc number n payload [] h e good = (omega arith, good, tt)
    InOrder-snoc number n payload ((q, m) ∷ blocks) (e', g, h) e good =
        (e', g, InOrder-snoc (number + 1) n payload blocks h (omega arith) good)

  -- What an early block changes of the backlog.
  pub record Kept (Good : P → ℕ → Type 0) (number low : ℕ) (b b' : List (BlockWithNumber P))
      : Type 0 where
    pub above : Above low b'
    pub here : Held number b'
    pub still : (m : ℕ) → Held m b → Held m b'
    pub only : (m : ℕ) → Held m b' → (m ≡ number) ⊎ Held m b
    pub good : AllGood Good b'

  keep-same :
      (payload q : P) (number n : ℕ) (b : List (BlockWithNumber P))
      → (n == number) ≡ true
      → keep_for_later (payload, number) ((q, n) ∷ b) ≡ (q, n) ∷ b
  unfolding keep_for_later binary_search
  keep-same payload q number n b same = rw same refl

  keep-before :
      (payload q : P) (number n : ℕ) (b : List (BlockWithNumber P))
      → (n == number) ≡ false
      → ltb number n ≡ true
      → keep_for_later (payload, number) ((q, n) ∷ b) ≡ (payload, number) ∷ ((q, n) ∷ b)
  unfolding keep_for_later binary_search insert
  keep-before payload q number n b other before = rw (other, before) refl

  keep-cons :
      (payload q : P) (number n : ℕ) (b : List (BlockWithNumber P))
      → n < number
      → keep_for_later (payload, number) ((q, n) ∷ b) ≡ (q, n) ∷ keep_for_later (payload, number) b
  unfolding keep_for_later binary_search insert
  keep-cons payload q number n b less =
      let other : (n == number) ≡ false = ground arith in
      let later : ltb number n ≡ false = ground arith in
      elim (Option-cases (binary_search number b)) [
        | inl e ↦ rw (other, later, e) refl
        | inr (i, e) ↦ rw (other, later, e) refl
      ]

  pub keep_for_later-Kept :
      (Good : P → ℕ → Type 0) (payload : P) (number low : ℕ) (b : List (BlockWithNumber P))
      → low < number
      → Above low b
      → AllGood Good b
      → Good payload number
      → Kept Good number low b (keep_for_later (payload, number) b)
  keep_for_later-Kept Good payload number low [] less above good new =
      unfold keep_for_later binary_search insert in
      record {
        above = (less, tt);
        here = inl refl;
        still = λ m held. absurd held;
        only = λ m held. elim held [ inl e ↦ inl (sym e) | inr f ↦ absurd f ];
        good = (new, tt);
      }
  keep_for_later-Kept Good payload number low ((q, n) ∷ b) less (above, aboves) (good, goods) new =
      elim (Bool-cases (n == number)) [
        | inl same ↦
            let e : n ≡ number = ground arith in
            let shut = keep-same payload q number n b same in
            rw shut (record {
              above = (above, aboves);
              here = inl e;
              still = λ m held. held;
              only = λ m held. inr held;
              good = (good, goods);
            })
        | inr other ↦ elim (Bool-cases (ltb number n)) [
          | inl before ↦
              let e = keep-before payload q number n b other before in
              rw e (record {
                above = (less, (ground arith, aboves));
                here = inl refl;
                still = λ m held. inr held;
                only = λ m held. elim held [ inl e ↦ inl (sym e) | inr f ↦ inr f ];
                good = (new, (good, goods));
              })
          | inr after ↦
              let lower : n < number = ground arith in
              let k = keep_for_later-Kept Good payload number n b lower aboves goods new in
              rw (keep-cons payload q number n b lower) (record {
                above = (above, k.above);
                here = inr k.here;
                still = λ m held. elim held [ inl e ↦ inl e | inr f ↦ inr (k.still m f) ];
                only = λ m held. elim held [
                  | inl e ↦ inr (inl e)
                  | inr f ↦ elim (k.only m f) [ inl e ↦ inl e | inr g ↦ inr (inr g) ]
                ];
                good = (good, k.good);
              })
        ]
      ]

  -- What is passed on of a backlog whose blocks come after those sent so far.
  pub record Applied (Good : P → ℕ → Type 0) (first n₀ limit : ℕ) (b b' : List (BlockWithNumber P))
      (n₁ : ℕ) (flush : Flush P) : Type 0 where
    pub above : Above (first + n₁) b'
    pub still : (m : ℕ) → first + n₁ ≤ m → Held m b → Held m b'
    pub only : (m : ℕ) → Held m b' → Held m b
    pub good : AllGood Good b'
    pub forward : n₀ ≤ n₁
    pub within : n₁ ≤ limit
    pub order : InOrder Good first flush.sent
    pub count : length flush.sent ≡ n₁

  -- Where the writer took all, and where it is gone since it took fewer than there were.
  abbrev pub Outcome :
      (P → ℕ → Type 0)
      → ℕ
      → ℕ
      → ℕ
      → ℕ
      → List (BlockWithNumber P)
      → List (BlockWithNumber P) × ℕ × Flush P
      → Type 0
  Outcome Good first n₀ limit takes b (b', n₁, flush) =
      Applied Good first n₀ limit b b' n₁ flush
      ⊎ ((flush.takes ≡ 0) × InOrder Good first flush.sent × (takes < length b))

  pub send_lem :
      (block : BlockWithNumber P) (flush : Flush P)
      → ((send block flush ≡ none) × (flush.takes ≡ 0))
        ⊎ ((flush' : Flush P) × (send block flush ≡ some flush')
            × (flush'.sent ≡ flush.sent ++ (block ∷ []))
            × (flush'.takes + 1 ≡ flush.takes))
  unfolding send
  send_lem block flush = elim (Bool-cases (flush.takes == 0)) [
    | inl gone ↦ inl (rw gone refl, ground arith)
    | inr more ↦ inr (
      record { sent = flush.sent ++ (block ∷ []); takes = flush.takes - 1 },
      rw more refl,
      refl,
      ground arith,
    )
  ]

  pub apply_from_backlog_lem :
      (Good : P → ℕ → Type 0) (first n limit : ℕ) (b : List (BlockWithNumber P)) (flush : Flush P)
      (low : ℕ)
      → low + 1 ≡ first + n
      → Above low b
      → ((m : ℕ) → Held m b → m < first + limit)
      → AllGood Good b
      → first + limit < 2 ^ 64
      → n ≤ limit
      → InOrder Good first flush.sent
      → length flush.sent ≡ n
      → Outcome Good first n limit flush.takes b (apply_from_backlog first b n flush)
  unfolding apply_from_backlog
  apply_from_backlog_lem Good first n limit [] flush low at above bound good small le order count =
      inl (record {
        above = tt;
        still = λ m le held. held;
        only = λ m held. held;
        good = tt;
        forward = omega arith;
        within = le;
        order = order;
        count = count;
      })
  apply_from_backlog_lem Good first n limit ((q, k) ∷ b) flush low at (above, aboves) bound
        (good, goods) small le order count =
      let expected : add_usize first n ≡ first + n = omega arith in
      elim (Bool-cases (k == (first + n))) [
        | inr other ↦
            rw (expected, other)
              (inl (record {
                above = (ground arith, aboves);
                still = λ m le held. held;
                only = λ m held. held;
                good = (good, goods);
                forward = omega arith;
                within = le;
                order = order;
                count = count;
              }))
        | inl next ↦
            let e : k ≡ first + n = ground arith in
            let less = bound k (inl refl) in
            elim (send_lem (q, k) flush) [
              | inl (gone, none_left) ↦
                  rw (expected, next, gone) (inr (none_left, order, omega arith))
              | inr (flush', taken, sent, takes) ↦
                  let order' : InOrder Good first flush'.sent =
                    rw sent (InOrder-snoc Good first k q flush.sent order (omega arith) good) in
                  let count' : length flush'.sent ≡ n + 1 =
                    rw sent (omega (arith, length-append flush.sent ((q, k) ∷ []))) in
                  let rest =
                    apply_from_backlog_lem Good first (n + 1) limit b flush' k (omega arith) aboves
                      (λ m held. bound m (inr held)) goods small (omega arith) order' count' in
                  rw (expected, next, taken)
                    (elim rest [
                      | inr (none_left, order'', fewer) ↦ inr (none_left, order'', omega arith)
                      | inl a ↦ inl (record {
                        above = a.above;
                        still = λ m le held. elim held [
                          | inl same ↦ absurd (let f = a.forward in omega arith)
                          | inr later ↦ a.still m le later
                        ];
                        only = λ m held. inr (a.only m held);
                        good = a.good;
                        forward = let f = a.forward in omega arith;
                        within = a.within;
                        order = a.order;
                        count = a.count;
                      })
                    ])
            ]
      ]
