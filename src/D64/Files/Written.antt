-- ===== src/D64/Files/Written.antt =====
-- Writing a file with `d64_write` and `d64_write_cleanup` of src/d64ops.c: what the bytes of a sector
-- and one call leave.
pub mod Ends
pub mod RoundTrip
use nodiskemu.Prelude.{
  ℕ, ◌+◌, ◌≤◌, Bool, true, false, ◌&&◌, Option, none, some, List, [], ◌∷◌, ◌++◌, ◌==◌,
  if◌then◌else◌, get_or, set, length, take, drop, ◌≡◌, ◌≢◌, refl, sym, ap, ◌∙◌, arith, Bool-cases,
  inl, inr, length-set, length-append, length-drop,
}
use mathlib.Core.Path.{subst}
use nodiskemu.D64.Files.{
  FileBuffer, Disk, link_to, as_last, store_data, write_next, d64_write, close_entry, closed_entry,
  close_stored, d64_write_cleanup, d64_read,
}
use nodiskemu.D64.Files.Stored.{IsDisk, IsStored, joined, read_on, d64_read-IsStored}

-- The bytes that come from the computer, in a sector's data behind the link.
unfoldable pub filled_bytes : List ℕ → List ℕ → List ℕ
filled_bytes x [] = []
filled_bytes x (a ∷ []) = a ∷ []
filled_bytes x (a ∷ c ∷ rest) = a ∷ c ∷ (x ++ drop (length x) rest)

unfoldable pub filled : List ℕ → FileBuffer → FileBuffer
filled x b = record b { bytes = filled_bytes x b.bytes; lastused = 1 + length x }

take_same : (x ys : List ℕ) → take (length x) (x ++ ys) ≡ x
take_same [] ys = refl
take_same (a ∷ x) ys = ap (λ (l : List ℕ). a ∷ l) (take_same x ys)

length-filled_bytes :
    (x bytes : List ℕ) → length bytes ≡ 256 → length x ≤ 254 → length (filled_bytes x bytes) ≡ 256
unfolding filled_bytes
length-filled_bytes x [] whole short = absurd (omega (arith, whole))
length-filled_bytes x (a ∷ []) whole short = absurd (omega (arith, whole))
length-filled_bytes x (a ∷ c ∷ rest) whole short =
    omega (arith, whole, length-append x (drop (length x) rest), length-drop (length x) rest)

-- The data of a sector with a link, whatever was the link before.
record IsLinked (t r : ℕ) (x : List ℕ) (bytes : List ℕ) : Type 0 where
  track : get_or bytes 0 0 ≡ t
  sector : get_or bytes 1 0 ≡ r
  data_same : take (length x) (drop 2 bytes) ≡ x
  whole : length bytes ≡ 256

filled-IsLinked :
    (t r : ℕ) (x bytes : List ℕ)
    → length bytes ≡ 256
    → length x ≤ 254
    → IsLinked t r x (set (set (filled_bytes x bytes) 0 t) 1 r)
unfolding filled_bytes
filled-IsLinked t r x [] whole short = absurd (omega (arith, whole))
filled-IsLinked t r x (a ∷ []) whole short = absurd (omega (arith, whole))
filled-IsLinked t r x (a ∷ c ∷ rest) whole short = record {
  track = refl;
  sector = refl;
  data_same = take_same x (drop (length x) rest);
  whole = omega (arith, whole, length-append x (drop (length x) rest), length-drop (length x) rest);
}

relinked :
    (t r u q : ℕ) (bytes : List ℕ)
    → set (set (set (set bytes 0 u) 1 q) 0 t) 1 r ≡ set (set bytes 0 t) 1 r
relinked t r u q [] = refl
relinked t r u q (a ∷ []) = refl
relinked t r u q (a ∷ c ∷ rest) = refl

module _ {S : Type 0} (m : Disk S) (content : S → (t r : ℕ) → List ℕ) (taken : S → (t r : ℕ) → Bool)
    (on_disk : (t r : ℕ) → Bool) (Valid : S → Type 0)
    (law : IsDisk m content taken on_disk Valid) where
  -- The file of full blocks and a last one, as it is sent; a failure ends it.
  unfoldable pub ended : S × ℕ → Option S
  ended (s, res) = if res == 0 then some s else none

  unfoldable pub write_on : List (List ℕ) → List ℕ → S × Option FileBuffer → Option S
  write_on xs last (s, none) = none
  write_on [] last (s, some b) = ended (d64_write_cleanup m s (filled last b))
  write_on (x ∷ xs) last (s, some b) = write_on xs last (d64_write m s (filled x b))

  abbrev pub AllFull : List (List ℕ) → Type 0
  AllFull [] = Unit {0}
  AllFull (x ∷ xs) = (length x ≡ 254) × AllFull xs

  -- What a write of a sector with a link to a new one leaves.
  record IsLinkWritten (s : S) (b : FileBuffer) (t r : ℕ) (s1 : S) (b1 : FileBuffer) : Type 0 where
    valid : Valid s1
    buffer : (b1.track ≡ t) × (b1.sector ≡ r) × (b1.bytes ≡ set (set b.bytes 0 t) 1 r)
    contents :
        (u q : ℕ)
        → taken s u q ≡ true
        → content s1 u q
          ≡ (if u == b.track && q == b.sector then set (set b.bytes 0 t) 1 r else content s u q)
    takes : (u q : ℕ) → taken s1 u q ≡ (if u == t && q == r then true else taken s u q)

  store-IsLinkWritten :
      (s : S) (b : FileBuffer) (t r : ℕ) (b1 : FileBuffer)
      → length b.bytes ≡ 256
      → Valid s
      → taken s b.track b.sector ≡ true
      → on_disk t r ≡ true
      → (m.allocate_sector s t r).1 ≡ 0
      → (store_data m 0 t r (link_to t r b) (m.allocate_sector s t r).0).1 ≡ some b1
      → IsLinkWritten s b t r (store_data m 0 t r (link_to t r b) (m.allocate_sector s t r).0).0 b1
  unfolding store_data link_to
  store-IsLinkWritten s b t r b1 whole v used on ok e =
      let s1 = (m.allocate_sector s t r).0 in
      let bytes = set (set b.bytes 0 t) 1 r in
      let (v1, kept, takes) = law.allocates s t r v on ok in
      let still : (u q : ℕ) → taken s u q ≡ true → taken s1 u q ≡ true =
        λ u q h. ground (arith, takes u q, h) in
      let w = m.image_write s1 b.track b.sector bytes in
      elim (Bool-cases (w.1 == 0)) [
        | inr bad ↦ absurd (ground (arith, e, bad))
        | inl good ↦
            let size : length bytes ≡ 256 =
              length-set (set b.bytes 0 t) 1 r ∙ length-set b.bytes 0 t ∙ whole in
            let (v2, wrote, same) =
              law.writes s1 b.track b.sector bytes v1 (still b.track b.sector used) size
                (ground (arith, good)) in
            rw good (record {
              valid = v2;
              buffer = (ground (arith, e, good), ground (arith, e, good), ground (arith, e, good));
              contents = λ u q h. ground (arith, wrote u q (still u q h), kept u q h);
              takes = λ u q. same u q ∙ takes u q;
            })
      ]

  error-none :
      (saved t r : ℕ) (b b1 : FileBuffer) (s : S)
      → saved ≢ 0
      → (store_data m saved t r b s).1 ≢ some b1
  unfolding store_data
  error-none saved t r b b1 s ne e = ground (arith, e)

  write_next-IsLinkWritten :
      (s : S) (ok : Bool) (t r : ℕ) (b b1 : FileBuffer)
      → length b.bytes ≡ 256
      → Valid s
      → taken s b.track b.sector ≡ true
      → (ok ≡ true → on_disk t r ≡ true)
      → (ok ≡ false → m.current_error s ≢ 0)
      → (write_next m b (s, ok, t, r)).1 ≡ some b1
      → (ok ≡ true) × IsLinkWritten s b t r (write_next m b (s, ok, t, r)).0 b1
  unfolding write_next
  write_next-IsLinkWritten s false t r b b1 whole v used on reported e =
      absurd (error-none (m.current_error s) 0 r b b1 s (reported refl) e)
  write_next-IsLinkWritten s true t r b b1 whole v used on reported e =
      elim (Bool-cases ((m.allocate_sector s t r).1 == 0)) [
        | inr bad ↦ absurd (ground (arith, e, bad))
        | inl good ↦
            let e1 : (store_data m 0 t r (link_to t r b) (m.allocate_sector s t r).0).1 ≡ some b1 =
              rw good at e in
            rw good (
              refl,
              store-IsLinkWritten s b t r b1 whole v used (on refl) (ground (arith, good)) e1,
            )
      ]

  -- One call of `d64_write` with a full sector.
  record IsStep (s : S) (b : FileBuffer) (x : List ℕ) (s1 : S) (b1 : FileBuffer) : Type 0 where
    valid : Valid s1
    fresh : (b1.track ≢ 0) × (taken s b1.track b1.sector ≡ false)
    linked : IsLinked b1.track b1.sector x (content s1 b.track b.sector)
    whole : length b1.bytes ≡ 256
    kept :
        (u q : ℕ)
        → taken s u q ≡ true
        → (u == b.track && q == b.sector) ≡ false
        → content s1 u q ≡ content s u q
    takes :
        (u q : ℕ) → taken s1 u q ≡ (if u == b1.track && q == b1.sector then true else taken s u q)

  d64_write-IsStep :
      (s : S) (b b1 : FileBuffer) (x : List ℕ)
      → length b.bytes ≡ 256
      → length x ≡ 254
      → Valid s
      → taken s b.track b.sector ≡ true
      → (d64_write m s (filled x b)).1 ≡ some b1
      → IsStep s b x (d64_write m s (filled x b)).0 b1
  unfolding d64_write as_last link_to filled
  d64_write-IsStep s b b1 x whole full v used e =
      let g = m.get_next_sector s b.track b.sector in
      let c = as_last (filled x b) in
      let size = length-filled_bytes x b.bytes whole (omega (arith, full)) in
      let c_whole : length c.bytes ≡ 256 =
        length-set (set (filled_bytes x b.bytes) 0 0) 1 (1 + length x)
        ∙ length-set (filled_bytes x b.bytes) 0 0
        ∙ size in
      let k = law.find_keeps s b.track b.sector v used in
      let still = k.takes b.track b.sector ∙ used in
      let (ok, w) =
        write_next-IsLinkWritten g.0 g.1 g.2 g.3 c b1 c_whole k.valid still
          (λ ok. (law.finds s b.track b.sector v used ok).1) (law.reports s b.track b.sector v used)
          e in
      let (nonzero, on, unused) = law.finds s b.track b.sector v used ok in
      let bytes : set (set c.bytes 0 g.2) 1 g.3 ≡ set (set (filled_bytes x b.bytes) 0 g.2) 1 g.3 =
        relinked g.2 g.3 0 (1 + length x) (filled_bytes x b.bytes) in
      let (same_t, same_r, same_bytes) = w.buffer in
      let link = filled-IsLinked g.2 g.3 x b.bytes whole (omega (arith, full)) in
      let self : (b.track == b.track && b.sector == b.sector) ≡ true = ground arith in
      let there : (if b.track == b.track && b.sector == b.sector
            then set (set c.bytes 0 g.2) 1 g.3
            else content g.0 b.track b.sector)
          ≡ set (set (filled_bytes x b.bytes) 0 g.2) 1 g.3 =
        rw self bytes in
      record {
        valid = w.valid;
        fresh = rw (same_t, same_r) (nonzero, unused);
        linked =
            rw (same_t, same_r)
              (subst (IsLinked g.2 g.3 x) (sym (w.contents b.track b.sector still ∙ there)) link);
        whole = ap length (same_bytes ∙ bytes) ∙ link.whole;
        kept = λ u q h ne. ground (arith, w.contents u q (k.takes u q ∙ h), k.contents u q h, ne);
        takes = λ u q. ground (arith, w.takes u q, k.takes u q, same_t, same_r);
      }
