-- ===== src/At/Band/Table.antt =====
-- internal/repository/at_parser.go: the switches of `DeriveBandFromARFCN` as a table.
use proton5g.Base.{
  ℕ, zero, suc, ◌≤◌, Bool, true, not, ◌||◌, List, [], ◌∷◌, ◌++◌, some, ◌≡◌, ◌∙◌, refl, arith,
  if◌then◌else◌, all, take, get_elem?, ltb, within, is_empty, codes,
}
use proton5g.Base.Int.{pos}
use proton5g.At.Band.{BandRow, nr_rows, lte_rows, band_in, derive_band_from_arfcn}

-- two rows share no channel number
abbrev pub apart : BandRow → BandRow → Bool
apart r q = ltb q.last r.first || ltb r.last q.first

-- a row that is apart from those in front of it gives its band
band_in-row :
    (rows : List BandRow) (i n : ℕ) (r : BandRow)
    → get_elem? rows i ≡ some r
    → all (apart r) (take i rows) ≡ true
    → within r.first r.last n ≡ true
    → band_in rows n ≡ r.band
unfolding band_in
band_in-row [] i n r here h inside = absurd (ground arith)
band_in-row (q ∷ rows) zero n r here h inside = ground arith
band_in-row (q ∷ rows) (suc i) n r here h inside =
    let rest = band_in-row rows i n r here in ground (arith, rest)

-- all rows carry a name, so a table behind another one is asked when that has no row
band_in-append :
    (rows more : List BandRow) (n : ℕ)
    → all (λ r. not (is_empty r.band)) rows ≡ true
    → (if is_empty (band_in rows n) then band_in more n else band_in rows n)
      ≡ band_in (rows ++ more) n
unfolding band_in
band_in-append [] more n h = refl
band_in-append (r ∷ rows) more n h = let rest = band_in-append rows more n in ground (arith, rest)

-- A row of the switches of `DeriveBandFromARFCN`, NR first, whose channel numbers are in no case in front
-- of it: each positive number in its range gets its band.
derive_band-row :
    (i n : ℕ) (r : BandRow)
    → get_elem? (nr_rows ++ lte_rows) i ≡ some r
    → all (apart r) (take i (nr_rows ++ lte_rows)) ≡ true
    → within r.first r.last (suc n) ≡ true
    → derive_band_from_arfcn (pos (suc n)) ≡ r.band
unfolding derive_band_from_arfcn
derive_band-row i n r here h inside =
    band_in-append nr_rows lte_rows (suc n) refl
    ∙ band_in-row (nr_rows ++ lte_rows) i (suc n) r here h inside

-- Each channel number in the range of the case for n7 is in the case for n41, which comes first: the
-- program never names the band n7 by a channel number of that range.
pub derive_band-n7 :
    (n : ℕ) → 514000 ≤ n → n ≤ 524000 → derive_band_from_arfcn (pos n) ≡ codes "n41"
derive_band-n7 zero lo hi = absurd (omega arith)
derive_band-n7 (suc n) lo hi =
    derive_band-row 2 n (record { first = 499200; last = 537999; band = codes "n41" }) refl refl
      (ground arith)
