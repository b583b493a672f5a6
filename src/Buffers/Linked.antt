-- ===== src/Buffers/Linked.antt =====
-- `alloc_linked_buffers`: a row of free buffers, and its chain.
use native.Mathlib.Decide.{ℕ_discrete}
use nodiskemu.Prelude.{
  ℕ, zero, suc, ◌+◌, ◌-◌, ◌<◌, ◌≤◌, ◌≡◌, ◌≢◌, ◌⊎◌, refl, inl, inr, true, false, Option, none, some,
  List, arith, ◌∙◌, sym, get_elem?, ◌==◌, Bool-cases, if◌then◌else◌, ltb,
}
use nodiskemu.System.{Buffer, System, chain}
use nodiskemu.Buffers.{
  is_allocated, scan_free, chain_buffers, link_found, alloc_linked_buffers, chain_step, link_buffer,
  fresh_buffer, alloc_specific_buffer, modify_at, end_buffer,
}
use mathlib.Core.Path.{subst}
use nodiskemu.Buffers.Alloc.{
  alloc_specific_buffer_self, get_elem?-modify_at, get_elem?-modify_at_ne,
  get_elem?-alloc_specific_buffer_ne,
}

-- The buffers from `start` on, `count` of them, are free.
pub record IsFreeRow (bs : List Buffer) (start count : ℕ) : Type 0 where
  pub free : (k : ℕ) → start ≤ k → k < start + count → is_allocated bs k ≡ false

IsFreeRow-more :
    (bs : List Buffer) (start m : ℕ)
    → IsFreeRow bs start m
    → is_allocated bs (start + m) ≡ false
    → IsFreeRow bs start (m + 1)
IsFreeRow-more bs start m row e = record {
  free = λ k lo hi. elim (ℕ_discrete k (start + m)) [
    | yes p ↦ rw p e
    | no p ↦ row.free k lo (omega arith)
  ];
}

-- One more free buffer: the row that ends with it.
next_row :
    (bs : List Buffer) (i fb st : ℕ)
    → ((fb ≡ 0) ⊎ (st + fb ≡ i))
    → IsFreeRow bs st fb
    → is_allocated bs i ≡ false
    → let st' : ℕ = if fb == 0 then i else st in
      (st' + (fb + 1) ≡ i + 1) × IsFreeRow bs st' (fb + 1)
next_row bs i fb st at row free = elim (Bool-cases (fb == 0)) [
  | inl z ↦
      rw z
        (ground arith, record { free = λ k lo hi. let same : k ≡ i = ground arith in rw same free })
  | inr z ↦ rw z (
    ground arith,
    IsFreeRow-more bs st fb row (let last : st + fb ≡ i = ground arith in rw last free),
  )
]

no_row : (bs : List Buffer) (s : ℕ) → IsFreeRow bs s 0
no_row bs s = record { free = λ k lo hi. absurd (omega arith) }

scan_free-row :
    (rounds i : ℕ) (bs : List Buffer) (count fb st r s : ℕ)
    → scan_free rounds i bs count fb st ≡ (r, s)
    → fb < count
    → ((fb ≡ 0) ⊎ (st + fb ≡ i))
    → IsFreeRow bs st fb
    → count ≤ r
    → (s + count ≤ i + rounds) × IsFreeRow bs s count
unfolding scan_free
scan_free-row zero i bs count fb st r s e lt at row enough = absurd (ground arith)
scan_free-row (suc rounds) i bs count fb st r s e lt at row enough =
    let st' : ℕ = if fb == 0 then i else st in
    elim (Bool-cases (is_allocated bs i)) [
      | inl used ↦
          let (bound, found) =
            scan_free-row rounds (i + 1) bs count 0 st r s (rw (used, scan_free) at e) (omega arith)
              (inl refl) (no_row bs st) enough in
          (omega arith, found)
      | inr free ↦
          let (end, grown) = next_row bs i fb st at row free in
          elim (Bool-cases (fb + 1 == count)) [
            | inl done ↦
                let same : s ≡ st' = ground arith in
                let full : fb + 1 ≡ count = ground arith in
                let whole : IsFreeRow bs st' count = rw full at grown in
                (omega arith, rw same whole)
            | inr more ↦
                let (bound, found) =
                  scan_free-row rounds (i + 1) bs count (fb + 1) st' r s (ground arith)
                    (ground arith) (inr end) grown enough in
                (omega arith, found)
          ]
    ]

module _ (count start p : ℕ) (sys : System) where
  chain_step_self :
      is_allocated sys.buffers p ≡ false
      → (b : Buffer) × (get_elem? (chain_step count start p sys).buffers p
          ≡ some (link_buffer count start (p + 1) (fresh_buffer b)))
  unfolding chain_step
  chain_step_self free =
      let (b, found, found') = alloc_specific_buffer_self sys.buffers p free in
      (b, get_elem?-modify_at (alloc_specific_buffer sys.buffers p) p _ (fresh_buffer b) found')

  chain_step-ne :
      (j : ℕ) → p ≢ j → get_elem? (chain_step count start p sys).buffers j ≡ get_elem? sys.buffers j
  unfolding chain_step
  chain_step-ne j h =
      get_elem?-modify_at_ne (alloc_specific_buffer sys.buffers p) p j _ h
      ∙ get_elem?-alloc_specific_buffer_ne sys.buffers p j h

  chain_step-row :
      (m : ℕ)
      → IsFreeRow sys.buffers p (suc m)
      → IsFreeRow (chain_step count start p sys).buffers (p + 1) m
  unfolding is_allocated
  chain_step-row m row = record {
    free = λ k lo hi.
        rw (chain_step-ne k (omega arith), is_allocated) (row.free k (omega arith) (omega arith));
  }

-- Outside its row the loop changes no buffer.
get_elem?-chain_ne :
    (rounds i count start : ℕ) (sys : System) (j : ℕ)
    → (j < start + i) ⊎ (start + i + rounds ≤ j)
    → get_elem? (chain_buffers rounds i count start sys).buffers j ≡ get_elem? sys.buffers j
unfolding chain_buffers
get_elem?-chain_ne zero i count start sys j h = refl
get_elem?-chain_ne (suc rounds) i count start sys j h =
    get_elem?-chain_ne rounds (i + 1) count start (chain_step count start (start + i) sys) j
      (omega arith)
    ∙ chain_step-ne count start (start + i) sys j (omega arith)

-- A buffer of a user in a chain of `count` buffers.
abbrev pub IsLink : ℕ → ℕ → Option ℕ → Buffer → Type 0
IsLink count start next b =
    (b.allocated ≡ true)
    × (b.secondary ≡ 0)
    × (b.dirty ≡ false)
    × (b.pvt ≡ chain count (some start) next)

link_buffer-IsLink :
    (count start next : ℕ) (b : Buffer)
    → IsLink count start (some next) (link_buffer count start next (fresh_buffer b))
unfolding link_buffer fresh_buffer
link_buffer-IsLink count start next b = (refl, refl, refl, refl)

chain_buffers-head :
    (rounds i count start : ℕ) (sys : System)
    → is_allocated sys.buffers (start + i) ≡ false
    → (b : Buffer) × (get_elem? (chain_buffers (suc rounds) i count start sys).buffers (start + i)
        ≡ some b)
      × IsLink count start (some (start + i + 1)) b
unfolding chain_buffers
chain_buffers-head rounds i count start sys free =
    let (b, found) = chain_step_self count start (start + i) sys free in
    let s1 = chain_step count start (start + i) sys in
    (
      link_buffer count start (start + i + 1) (fresh_buffer b),
      get_elem?-chain_ne rounds (i + 1) count start s1 (start + i) (inl (omega arith)) ∙ found,
      link_buffer-IsLink count start (start + i + 1) b,
    )

-- Inside it, each buffer points to the next one.
chain_buffers-IsLink :
    (rounds i count start : ℕ) (sys : System) (k : ℕ)
    → IsFreeRow sys.buffers (start + i) rounds
    → start + i ≤ k
    → k < start + i + rounds
    → (b : Buffer) × (get_elem? (chain_buffers rounds i count start sys).buffers k ≡ some b)
      × IsLink count start (some (k + 1)) b
unfolding chain_buffers
chain_buffers-IsLink zero i count start sys k row lo hi = absurd (omega arith)
chain_buffers-IsLink (suc rounds) i count start sys k row lo hi = elim (ℕ_discrete k (start + i)) [
  | yes p ↦
      subst
        (λ q.
          (b : Buffer) × (get_elem? (chain_buffers (suc rounds) i count start sys).buffers q
            ≡ some b)
          × IsLink count start (some (q + 1)) b)
        (sym p)
        (chain_buffers-head rounds i count start sys
          (row.free (start + i) (omega arith) (omega arith)))
  | no p ↦
      chain_buffers-IsLink rounds (i + 1) count start (chain_step count start (start + i) sys) k
        (let e : start + i + 1 ≡ start + (i + 1) = omega arith in
          subst (λ q. IsFreeRow (chain_step count start (start + i) sys).buffers q rounds) e
            (chain_step-row count start (start + i) sys rounds row))
        (omega arith) (omega arith)
]

pub record IsChain (n count : ℕ) (old new : List Buffer) (start : ℕ) : Type 0 where
  pub row : IsFreeRow old start count
  pub inside : start + count ≤ n
  pub linked :
      (k : ℕ)
      → start ≤ k
      → k < start + count
      → (b : Buffer) × (get_elem? new k ≡ some b)
        × IsLink count start (if k + 1 == start + count then none else some (k + 1)) b
  pub others : (j : ℕ) → (j < start) ⊎ (start + count ≤ j) → get_elem? new j ≡ get_elem? old j

end_buffer-IsLink :
    (count start next : ℕ) (b : Buffer)
    → IsLink count start (some next) b
    → IsLink count start none (end_buffer b)
unfolding end_buffer
end_buffer-IsLink count start next b (used, sec, clean, pvt) = (used, sec, clean, rw pvt)

module _ (n count : ℕ) (sys : System) (start : ℕ) (pos : 0 < count) where
  chained : List Buffer
  chained = (chain_buffers count 0 count start sys).buffers

  buffers-link_found :
      (r : ℕ)
      → ltb r count ≡ false
      → (link_found n count sys (r, start)).0.buffers
        ≡ modify_at chained (start + count - 1) end_buffer
  unfolding link_found chained
  buffers-link_found r e = rw e

  module _ (row : IsFreeRow sys.buffers start count) where
    chained-IsLink :
        (k : ℕ)
        → start ≤ k
        → k < start + count
        → (b : Buffer) × (get_elem? chained k ≡ some b) × IsLink count start (some (k + 1)) b
    unfolding chained
    chained-IsLink k lo hi =
        let e : start + 0 ≡ start = omega arith in
        chain_buffers-IsLink count 0 count start sys k
          (subst (λ q. IsFreeRow sys.buffers q count) (sym e) row) (omega arith) (omega arith)

    ended-IsLink :
        (k : ℕ)
        → start ≤ k
        → k < start + count
        → (b : Buffer) × (get_elem? (modify_at chained (start + count - 1) end_buffer) k ≡ some b)
          × IsLink count start (if k + 1 == start + count then none else some (k + 1)) b
    ended-IsLink k lo hi =
        let (b, found, link) = chained-IsLink k lo hi in
        elim (Bool-cases (k + 1 == start + count)) [
          | inl last ↦
              let same : start + count - 1 ≡ k = ground arith in
              rw (last, same)
                (
                  end_buffer b,
                  get_elem?-modify_at chained k end_buffer b found,
                  end_buffer-IsLink count start (k + 1) b link,
                )
          | inr inner ↦ rw inner (
            b,
            get_elem?-modify_at_ne chained (start + count - 1) k end_buffer (ground arith) ∙ found,
            link,
          )
        ]

    ended-ne :
        (j : ℕ)
        → (j < start) ⊎ (start + count ≤ j)
        → get_elem? (modify_at chained (start + count - 1) end_buffer) j ≡ get_elem? sys.buffers j
    unfolding chained
    ended-ne j h =
        get_elem?-modify_at_ne (chain_buffers count 0 count start sys).buffers (start + count - 1) j
          end_buffer (omega arith)
        ∙ get_elem?-chain_ne count 0 count start sys j (omega arith)

link_found-some :
    (n count : ℕ) (sys : System) (r s start : ℕ)
    → (link_found n count sys (r, s)).1 ≡ some start
    → (ltb r count ≡ false) × (s ≡ start)
unfolding link_found
link_found-some n count sys r s start e = ground arith

-- `alloc_linked_buffers` takes `count` free buffers in a row, chains them and ends the chain; no
-- other buffer changes.
pub alloc_linked_buffers-IsChain :
    (n count : ℕ) (sys : System) (start : ℕ)
    → 0 < count
    → (alloc_linked_buffers n count sys).1 ≡ some start
    → IsChain n count sys.buffers (alloc_linked_buffers n count sys).0.buffers start
unfolding alloc_linked_buffers
alloc_linked_buffers-IsChain n count sys start pos e =
    let (r, s) = scan_free n 0 sys.buffers count 0 0 in
    let (enough, same) = link_found-some n count sys r s start e in
    let (inside, row) =
      scan_free-row n 0 sys.buffers count 0 0 r s refl pos (inl refl) (no_row sys.buffers 0)
        (ground arith) in
    subst (λ q. IsChain n count sys.buffers (alloc_linked_buffers n count sys).0.buffers q) same
      (rw (buffers-link_found n count sys s pos r enough) (record {
        row = row;
        inside = omega arith;
        linked = ended-IsLink n count sys s pos row;
        others = ended-ne n count sys s pos row;
      }))
