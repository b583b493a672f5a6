-- ===== src/D64/Mount.antt =====
-- `d64_mount` of src/d64ops.c: how the size of the file decides the type and the geometry.
use nodiskemu.Prelude.{
  ℕ, ◌+◌, ◌*◌, ◌/◌, ◌%◌, ◌≤◌, ◌<◌, Bool, true, ◌&&◌, Option, none, some, List, [], ◌∷◌, ◌≡◌, ◌≢◌,
  refl, ◌==◌, if◌then◌else◌, arith, Bool-cases, inl, inr, All, Option-cases,
}
use mathlib.Core.Path.{subst}
use nodiskemu.D64.{
  Kind, d80, d82, image_kind, Param, d41param, d71param, d81param, dnpparam, d80param, d82param,
  sector_offset,
}
use nodiskemu.D64.Geometry.{
  HasZones, zones_d41, zones_d71, zones_d81, zones_dnp, IsSector, sector_count, sector_offset-bound,
}

pub record Image : Type 0 where
  pub imagetype : ℕ
  pub param : Param

-- The cases of the switch; 128 is D64_HAS_ERRORINFO.
unfoldable pub sizes : List (ℕ × Image)
sizes =
    (174848, record { imagetype = 2; param = d41param })
    ∷ (175531, record { imagetype = 2 + 128; param = d41param })
    ∷ (349696, record { imagetype = 3; param = d71param })
    ∷ (351062, record { imagetype = 3 + 128; param = d71param })
    ∷ (819200, record { imagetype = 4; param = d81param })
    ∷ (822400, record { imagetype = 4 + 128; param = d81param })
    ∷ (533248, record { imagetype = 8; param = d80param })
    ∷ (535331, record { imagetype = 8 + 128; param = d80param })
    ∷ (1066496, record { imagetype = 16; param = d82param })
    ∷ (1070662, record { imagetype = 16 + 128; param = d82param })
    ∷ []

unfoldable pub case_of : List (ℕ × Image) → ℕ → Option Image
case_of [] fsize = none
case_of ((size, image) ∷ cases) fsize = if fsize == size then some image else case_of cases fsize

-- The last track is a uint8_t.
unfoldable pub dnp_image : ℕ → Image
dnp_image fsize = record {
  imagetype = 1;
  param = record dnpparam { last_track = fsize / 65536 % 256 };
}

-- The default case; the flag says that the name ends in .?64.
unfoldable pub default_image : Bool → ℕ → Option Image
default_image ends_64 fsize =
    if fsize % 65536 == 0
    then (if (fsize == 196608) && ends_64 then none else some (dnp_image fsize))
    else none

-- `none` is ERROR_IMAGE_INVALID.
unfoldable pub mount_image : Bool → ℕ → Option Image
mount_image ends_64 fsize = elim (case_of sizes fsize) [
  | some image ↦ some image
  | none ↦ default_image ends_64 fsize
]

-- All sectors of the image are inside a file of the size.
abbrev pub IsInFile : ℕ → Image → Type 0
IsInFile fsize image =
    (track sector : ℕ)
    → IsSector (image_kind image.imagetype) image.param.last_track track sector
    → sector_offset (image_kind image.imagetype) track sector + 256 ≤ fsize

-- The images that the theorems of the geometry are about.
abbrev pub IsFlat : Image → Type 0
IsFlat image = (image_kind image.imagetype ≢ d80) × (image_kind image.imagetype ≢ d82)

case_of-All :
    (P : ℕ → Image → Type 0)
    → (cases : List (ℕ × Image)) → All (λ c. P c.0 c.1) cases
    → (fsize : ℕ) → (image : Image) → case_of cases fsize ≡ some image
    → P fsize image
unfolding case_of
case_of-All P [] all fsize image eq = absurd (ground arith)
case_of-All P ((size, image1) ∷ cases) (p, all) fsize image eq = elim (Bool-cases (fsize == size)) [
  | inl same ↦ subst (λ n. P n image) (ground arith) (subst (P size) (ground arith) p)
  | inr other ↦ case_of-All P cases all fsize image (ground arith)
]

abbrev IsFit : ℕ → Image → Type 0
IsFit fsize image = IsFlat image → IsInFile fsize image

in_file :
    {kind : Kind}
    → {last : ℕ} → (z : HasZones kind last) → (fsize : ℕ) → 256 * sector_count kind last ≤ fsize
    → (track sector : ℕ) → IsSector kind last track sector
    → sector_offset kind track sector + 256 ≤ fsize
in_file z fsize fits track sector is_sector =
    omega (arith, sector_offset-bound z track sector is_sector)

sizes-All : All (λ c. IsFit c.0 c.1) sizes
unfolding sizes image_kind
sizes-All = (
  λ flat. in_file zones_d41 174848 (omega arith),
  (
    λ flat. in_file zones_d41 175531 (omega arith),
    (
      λ flat. in_file zones_d71 349696 (omega arith),
      (
        λ flat. in_file zones_d71 351062 (omega arith),
        (
          λ flat. in_file zones_d81 819200 (omega arith),
          (
            λ flat. in_file zones_d81 822400 (omega arith),
            (
              λ flat. absurd (flat.0 refl),
              (
                λ flat. absurd (flat.0 refl),
                (λ flat. absurd (flat.1 refl), (λ flat. absurd (flat.1 refl), (tt))),
              ),
            ),
          ),
        ),
      ),
    ),
  ),
)

whole_of : (fsize : ℕ) → (fsize % 65536 == 0) ≡ true → fsize % 65536 ≡ 0
whole_of fsize h = ground arith

default_image-IsFit :
    (ends_64 : Bool)
    → (fsize : ℕ) → (image : Image) → fsize < 16777216
    → default_image ends_64 fsize ≡ some image
    → IsFit fsize image
unfolding default_image image_kind dnp_image
default_image-IsFit ends_64 fsize image small eq flat = elim (Bool-cases (fsize % 65536 == 0)) [
  | inr other ↦ absurd (ground arith)
  | inl whole ↦ elim (Bool-cases ((fsize == 196608) && ends_64)) [
    | inl sane ↦ absurd (ground arith)
    | inr other ↦
        let same : dnp_image fsize ≡ image = ground arith in
        subst (IsInFile fsize) same (
          in_file (zones_dnp (fsize / 65536 % 256) (omega arith)) fsize
            (omega (arith, whole_of fsize whole)))
  ]
]

-- An image that is mounted, of another type than D80 and D82, has all its sectors whole inside the
-- file, when the file is smaller than 16 MB (the number of tracks of a DNP is 8 bits).
pub mount_image-IsInFile :
    (ends_64 : Bool)
    → (fsize : ℕ) → (image : Image) → fsize < 16777216
    → mount_image ends_64 fsize ≡ some image
    → IsFlat image
    → IsInFile fsize image
unfolding mount_image
mount_image-IsInFile ends_64 fsize image small eq flat = elim (Option-cases (case_of sizes fsize)) [
  | inl missing ↦ default_image-IsFit ends_64 fsize image small (ground arith) flat
  | inr (image1, found) ↦ case_of-All IsFit sizes sizes-All fsize image (ground arith) flat
]
