-- ===== src/D64/Bam/Edit.antt =====
-- What the write of one byte of the block map of src/d64ops.c does to the set of free sectors and the
-- counters of the tracks.
use nodiskemu.Prelude.{
  ℕ, ◌/◌, ◌≤◌, ◌<◌, Bool, false, ◌&&◌, List, ◌≡◌, ◌≢◌, sym, ap, ◌∙◌, inl, inr, arith, ◌==◌,
  if◌then◌else◌, get_or, Bool-cases, test_bit,
}
use nodiskemu.D64.{Kind, dnp, BamData, bitfield, freecount, bam_position}
use nodiskemu.D64.Bam.{Machine, Partition, Bam, kind_of, bit_of, position, bit_index}
use nodiskemu.D64.Bam.Places.{
  IsTrack, SameSector, bam_position-IsHome, sector_lba-IsHome, sector-lt-width, bits_apart,
  counts_apart, bit-count_apart, position-lt, HasBam-lt,
}
use nodiskemu.D64.Bam.Cache.{IsMachine}
use nodiskemu.D64.Bam.Map.{IsImage, IsSector, home, view, bit, count, IsWritten}

module _ {D : Type 0} (m : Machine D) (at : D → (part n : ℕ) → List ℕ) (law : IsMachine m at)
    (partitions : ℕ → Partition) (max_part : ℕ) (few : max_part ≤ 255) (part last : ℕ)
    (image : IsImage m at law partitions max_part few part last) where
  abbrev pub kind : Kind
  kind = kind_of (partitions part)

  abbrev OnDisk : ℕ → ℕ → Type 0
  OnDisk t r = IsSector m at law partitions max_part few part last t r

  abbrev pub index : ℕ → ℕ → ℕ
  index t r = bit_index m partitions max_part part t r

  abbrev pub place : BamData → ℕ → ℕ
  place type t = home m at law partitions max_part few part type t

  place-SameSector :
      (type type' : BamData) (t t' : ℕ)
      → IsTrack last t
      → IsTrack last t'
      → place type t ≡ place type' t'
      → SameSector (bam_position kind type t) (bam_position kind type' t')
  unfolding home
  place-SameSector type type' t t' h h' e =
      sector_lba-IsHome kind _ _ _ _
        (bam_position-IsHome kind type t h.first (HasBam-lt image.has_bam t h))
        (bam_position-IsHome kind type' t' h'.first (HasBam-lt image.has_bam t' h')) e

  -- Only the bits of eight sectors of one track share a byte.
  index_apart :
      (t r t' r' : ℕ)
      → OnDisk t r
      → OnDisk t' r'
      → place bitfield t ≡ place bitfield t'
      → index t r ≡ index t' r'
      → (t ≡ t') × (r / 8 ≡ r' / 8)
  unfolding bit_index position
  index_apart t r t' r' h h' e e' =
      bits_apart image.has_bam t t' (r / 8) (r' / 8) h.on_disk h'.on_disk
        (sector-lt-width image.has_bam t r h.in_track)
        (sector-lt-width image.has_bam t' r' h'.in_track)
        (place-SameSector bitfield bitfield t t' h.on_disk h'.on_disk e) e'

  pub index-lt : (t r : ℕ) → OnDisk t r → index t r < 256
  unfolding bit_index position
  index-lt t r h =
      position-lt image.has_bam t (r / 8) h.on_disk (sector-lt-width image.has_bam t r h.in_track)

  pub bit_of-lt : (r : ℕ) → bit_of (partitions part) r < 8
  unfolding bit_of
  bit_of-lt r = ground arith

  bit_of_eq :
      (r r' : ℕ)
      → r / 8 ≡ r' / 8
      → bit_of (partitions part) r ≡ bit_of (partitions part) r'
      → r ≡ r'
  unfolding bit_of
  bit_of_eq r r' e e' = ground arith

  -- Only the bit of `(t, r)` may have changed, to `value`; counters and other images are the same.
  pub record IsBitSet (s : Bam D) (t r : ℕ) (value : Bool) (s' : Bam D) : Type 0 where
    pub bits :
        (t' r' : ℕ)
        → OnDisk t' r'
        → bit m at law partitions max_part few part s' t' r' ≡ (
            if t' == t && r' == r then value else bit m at law partitions max_part few part s t' r')
    pub counts :
        kind ≢ dnp
        → (t' : ℕ) → IsTrack last t'
        → count m at law partitions max_part few part s' t'
          ≡ count m at law partitions max_part few part s t'
    pub others :
        (p n i : ℕ)
        → p < max_part
        → p ≢ part
        → get_or (view m at law partitions max_part few part s' p n) i 0
          ≡ get_or (view m at law partitions max_part few part s p n) i 0

  -- Only the counter of `t` may have changed, to `value`.
  pub record IsCountSet (s : Bam D) (t value : ℕ) (s' : Bam D) : Type 0 where
    pub bits :
        (t' r' : ℕ)
        → OnDisk t' r'
        → bit m at law partitions max_part few part s' t' r'
          ≡ bit m at law partitions max_part few part s t' r'
    pub counts :
        (t' : ℕ)
        → IsTrack last t'
        → count m at law partitions max_part few part s' t'
          ≡ (if t' == t then value else count m at law partitions max_part few part s t')
    pub others :
        (p n i : ℕ)
        → p < max_part
        → p ≢ part
        → get_or (view m at law partitions max_part few part s' p n) i 0
          ≡ get_or (view m at law partitions max_part few part s p n) i 0

  abbrev byte : Bam D → (n i : ℕ) → ℕ
  byte s n i = get_or (view m at law partitions max_part few part s part n) i 0

  -- A byte of the block map with one bit changed.
  abbrev pub IsBitChange : (r : ℕ) (value : Bool) → (old new : ℕ) → Type 0
  IsBitChange r value old new =
      (j : ℕ)
      → j < 8
      → test_bit new j ≡ (if bit_of (partitions part) r == j then value else test_bit old j)

  -- A write, seen in the image itself.
  byte-IsWritten :
      (s s' : Bam D) (n i v k j : ℕ)
      → IsWritten m at law partitions max_part few part s n i v s'
      → byte s' k j ≡ (if k == n && j == i then v else byte s k j)
  byte-IsWritten s s' n i v k j written = ground (arith, written.byte part k j image.mounted)

  byte_cong : (s : Bam D) (n n' i i' : ℕ) → n ≡ n' → i ≡ i' → byte s n i ≡ byte s n' i'
  byte_cong s n n' i i' e e' = ap (λ (k : ℕ). byte s k i) e ∙ ap (λ (k : ℕ). byte s n' k) e'

  -- The bit of a sector whose byte is written.
  written_bit :
      (s s' : Bam D) (t r v t' r' : ℕ) (value : Bool)
      → OnDisk t r
      → OnDisk t' r'
      → IsBitChange r value (byte s (place bitfield t) (index t r)) v
      → byte s' (place bitfield t') (index t' r') ≡ v
      → place bitfield t' ≡ place bitfield t
      → index t' r' ≡ index t r
      → bit m at law partitions max_part few part s' t' r'
        ≡ (if t' == t && r' == r then value else bit m at law partitions max_part few part s t' r')
  unfolding bit
  written_bit s s' t r v t' r' value here h change eq e e' =
      let (same_t, same_r) = index_apart t' r' t r h here e e' in
      let b = bit_of (partitions part) r' in
      let old = byte_cong s _ _ _ _ e e' in
      ap (λ (x : ℕ). test_bit x b) eq
      ∙ change b (bit_of-lt r')
      ∙ ground (
        arith,
        same_t,
        bit_of_eq r r' (sym same_r),
        ap (bit_of (partitions part)),
        ap (λ (x : ℕ). test_bit x b) old,
      )

  -- A bit whose byte is not written.
  other_bit :
      (s s' : Bam D) (t r t' r' : ℕ) (value : Bool)
      → byte s' (place bitfield t') (index t' r') ≡ byte s (place bitfield t') (index t' r')
      → (place bitfield t' == place bitfield t && index t' r' == index t r) ≡ false
      → bit m at law partitions max_part few part s' t' r'
        ≡ (if t' == t && r' == r then value else bit m at law partitions max_part few part s t' r')
  unfolding bit
  other_bit s s' t r t' r' value eq ne = elim (Bool-cases (t' == t && r' == r)) [
    | inl e ↦
        let same_t : t' ≡ t = ground (arith, e) in
        let same_r : r' ≡ r = ground (arith, e) in
        let same_index : index t' r' ≡ index t r =
          ap (λ k. index k r') same_t ∙ ap (index t) same_r in
        absurd (ground (arith, ne, ap (place bitfield) same_t, same_index))
    | inr e ↦ rw e (ap (λ (x : ℕ). test_bit x (bit_of (partitions part) r')) eq)
  ]

  -- The writes of bits leave the counters, and those of counters the bits.
  bit-count_places :
      (t r t' : ℕ)
      → OnDisk t r
      → IsTrack last t'
      → kind ≢ dnp
      → (place bitfield t == place freecount t'
          && index t r == (bam_position kind freecount t').pos)
        ≡ false
  unfolding bit_index position
  bit-count_places t r t' h h' plain =
      elim (Bool-cases (
        place bitfield t == place freecount t'
        && index t r == (bam_position kind freecount t').pos)) [
          | inr e ↦ e
          | inl e ↦ absurd (
              bit-count_apart image.has_bam t t' (r / 8) h.on_disk h' plain
                (sector-lt-width image.has_bam t r h.in_track)
                (place-SameSector bitfield freecount t t' h.on_disk h' (ground (arith, e)))
                (ground (arith, e)))
        ]

  same_count :
      (s s' : Bam D) (t' : ℕ)
      → byte s' (place freecount t') (bam_position kind freecount t').pos
        ≡ byte s (place freecount t') (bam_position kind freecount t').pos
      → count m at law partitions max_part few part s' t'
        ≡ count m at law partitions max_part few part s t'
  unfolding count
  same_count s s' t' eq = eq

  same_bit :
      (s s' : Bam D) (t' r' : ℕ)
      → byte s' (place bitfield t') (index t' r') ≡ byte s (place bitfield t') (index t' r')
      → bit m at law partitions max_part few part s' t' r'
        ≡ bit m at law partitions max_part few part s t' r'
  unfolding bit
  same_bit s s' t' r' eq = ap (λ (x : ℕ). test_bit x (bit_of (partitions part) r')) eq

  new_count :
      (s s' : Bam D) (t v t' : ℕ)
      → IsTrack last t
      → IsTrack last t'
      → kind ≢ dnp
      → IsWritten m at law partitions max_part few part s
          (place freecount t)
          (bam_position kind freecount t).pos
          v
          s'
      → count m at law partitions max_part few part s' t'
        ≡ (if t' == t then v else count m at law partitions max_part few part s t')
  unfolding count
  new_count s s' t v t' here h plain written =
      let now =
        byte-IsWritten s s' _ _ v (place freecount t') (bam_position kind freecount t').pos
          written in
      elim (Bool-cases (t' == t)) [
        | inl e ↦
            let same : t' ≡ t = ground (arith, e) in
            rw e (
              now
              ∙ ground (
                arith,
                ap (place freecount) same,
                ap (λ (x : ℕ). (bam_position kind freecount x).pos) same,
              ))
        | inr e ↦ rw e (
            now
            ∙ ground (
              arith,
              counts_apart image.has_bam t' t h here plain,
              place-SameSector freecount freecount t' t h here,
            ))
      ]

  pub bit-IsBitSet :
      (s s' : Bam D) (t r v : ℕ) (value : Bool)
      → OnDisk t r
      → IsBitChange r value (byte s (place bitfield t) (index t r)) v
      → IsWritten m at law partitions max_part few part s (place bitfield t) (index t r) v s'
      → IsBitSet s t r value s'
  bit-IsBitSet s s' t r v value here change written = record {
    bits = λ t' r' h.
        let now =
          byte-IsWritten s s' (place bitfield t) (index t r) v (place bitfield t') (index t' r')
            written in
        elim (Bool-cases (place bitfield t' == place bitfield t && index t' r' == index t r)) [
          | inl e ↦
              written_bit s s' t r v t' r' value here h change (ground (arith, now, e))
                (ground (arith, e)) (ground (arith, e))
          | inr e ↦ other_bit s s' t r t' r' value (ground (arith, now, e)) e
        ];
    counts = λ plain t' h.
        let now =
          byte-IsWritten s s' (place bitfield t) (index t r) v (place freecount t')
            (bam_position kind freecount t').pos written in
        same_count s s' t' (now ∙ ground (arith, bit-count_places t r t' here h plain));
    others = λ p n i lt ne. ground (arith, written.byte p n i lt);
  }

  pub count-IsCountSet :
      (s s' : Bam D) (t v : ℕ)
      → IsTrack last t
      → kind ≢ dnp
      → IsWritten m at law partitions max_part few part s
          (place freecount t)
          (bam_position kind freecount t).pos
          v
          s'
      → IsCountSet s t v s'
  count-IsCountSet s s' t v here plain written = record {
    bits = λ t' r' h.
        let now =
          byte-IsWritten s s' (place freecount t) (bam_position kind freecount t).pos v
            (place bitfield t') (index t' r') written in
        same_bit s s' t' r' (now ∙ ground (arith, bit-count_places t' r' t h here plain));
    counts = λ t' h. new_count s s' t v t' here h plain written;
    others = λ p n i lt ne. ground (arith, written.byte p n i lt);
  }
