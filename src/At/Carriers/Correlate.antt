-- ===== src/At/Carriers/Correlate.antt =====
-- internal/repository/at_parser.go: what `CorrelateCAWithCells` fills in, and from which cell.
use proton5g.Base.{
  ℕ, Bool, true, false, not, ◌&&◌, ◌||◌, List, [], ◌∷◌, ◌++◌, Option, none, some, ◌≡◌, ◌≢◌, refl,
  ap, arith, All, if_cases, if◌then◌else◌, Text, codes, same, same_iff, is_empty,
}
use proton5g.Base.Int.{ℤ, pos, eqb_ℤ}
use proton5g.Domain.{CellInfo, CaComponent}
use proton5g.Domain.Enums.{tech_5g_nr}
use proton5g.At.Band.{format_band, format_bandwidth}
use proton5g.At.Carriers.{
  fill_primary, fill_secondary, fill_by, matching_cell, serving_cell, correlate_component,
  correlate_all, correlate_ca_with_cells,
}

-- the first cell of a list that passes a test, if there is one
pub data Picked (test : CellInfo → Bool) (cells : List CellInfo) : Option CellInfo → Type 0 where
  none_fits : All (λ d. test d ≡ false) cells → Picked test cells none
  first_fits :
      (cell : CellInfo) (front back : List CellInfo)
      → cells ≡ front ++ cell ∷ back
      → test cell ≡ true
      → All (λ d. test d ≡ false) front
      → Picked test cells (some cell)

-- a cell with the known PCI, or the known channel number, of a carrier
abbrev pub is_cell_of : CaComponent → CellInfo → Bool
is_cell_of c cell =
    (not (is_empty c.pci) && same cell.pci c.pci)
    || (not (is_empty c.arfcn) && same cell.arfcn c.arfcn)

-- a text that is known stays, and one that is not takes the value
abbrev pub Takes : Text → Text → Text → Type 0
Takes old value new = (is_empty old ≡ false → new ≡ old) × (is_empty old ≡ true → new ≡ value)

-- the same for a level, of which 0 is not known
abbrev pub TakesLevel : ℤ → ℤ → ℤ → Type 0
TakesLevel old value new = (old ≢ pos 0 → new ≡ old) × (old ≡ pos 0 → new ≡ value)

unless_known : (old value : Text) → Takes old value (if is_empty old then value else old)
unless_known [] value = (λ h. absurd (ground arith), λ _. refl)
unless_known (x ∷ old) value = (λ _. refl, λ h. absurd (ground arith))

unless_known_if :
    (old source value : Text)
    → Takes old
        (if is_empty source then [] else value)
        (if is_empty old && not (is_empty source) then value else old)
unless_known_if [] [] value = (λ _. refl, λ _. refl)
unless_known_if [] (x ∷ source) value = (λ h. absurd (ground arith), λ _. refl)
unless_known_if (x ∷ old) source value = (λ _. refl, λ h. absurd (ground arith))

unless_level : (old value : ℤ) → TakesLevel old value (if eqb_ℤ old (pos 0) then value else old)
unless_level old value = (λ known. ground arith, λ unknown. ground arith)

module _ (tenths_mhz : ℕ → Text) where
  -- what the band and the bandwidth of a cell are shown as
  abbrev pub shown_band : CellInfo → Text
  shown_band cell =
      if is_empty cell.band then [] else format_band cell.band (same cell.rat tech_5g_nr)

  abbrev pub shown_bandwidth : CellInfo → Text
  shown_bandwidth cell =
      if is_empty cell.bandwidth
      then []
      else format_bandwidth tenths_mhz cell.bandwidth (same cell.rat tech_5g_nr)

  -- What a secondary carrier takes from its cell, if it lacks it. All else stays.
  pub record FilledSecondary (c : CaComponent) (cell : CellInfo) (c' : CaComponent) : Type 0 where
    pub band : Takes c.band (shown_band cell) c'.band
    pub dl_bw : Takes c.dl_bw (shown_bandwidth cell) c'.dl_bw
    pub sinr : TakesLevel c.sinr cell.sinr c'.sinr
    pub rest : record c' { band = c.band; dl_bw = c.dl_bw; sinr = c.sinr } ≡ c

  -- What the primary carrier takes from the serving cell, if it lacks it. All else stays.
  pub record FilledPrimary (c : CaComponent) (cell : CellInfo) (c' : CaComponent) : Type 0 where
    pub band : Takes c.band (shown_band cell) c'.band
    pub dl_bw : Takes c.dl_bw (shown_bandwidth cell) c'.dl_bw
    pub pci : Takes c.pci cell.pci c'.pci
    pub arfcn : Takes c.arfcn cell.arfcn c'.arfcn
    pub rsrp : TakesLevel c.rsrp cell.rsrp c'.rsrp
    pub rsrq : TakesLevel c.rsrq cell.rsrq c'.rsrq
    pub sinr : TakesLevel c.sinr cell.sinr c'.sinr
    pub rest :
        record c' {
          band = c.band;
          dl_bw = c.dl_bw;
          pci = c.pci;
          arfcn = c.arfcn;
          rsrp = c.rsrp;
          rsrq = c.rsrq;
          sinr = c.sinr;
        }
        ≡ c

  -- what becomes of a carrier among the cells
  pub data Correlated (cells : List CellInfo) (c c' : CaComponent) : Type 0 where
    by_serving :
        (cell : CellInfo)
        → c.component ≡ codes "PCC"
        → Picked (λ d. d.serving) cells (some cell)
        → FilledPrimary c cell c'
        → Correlated cells c c'
    by_match :
        (cell : CellInfo)
        → (c.component ≡ codes "PCC" → Picked (λ d. d.serving) cells none)
        → Picked (is_cell_of c) cells (some cell)
        → FilledSecondary c cell c'
        → Correlated cells c c'
    alone :
        (c.component ≡ codes "PCC" → Picked (λ d. d.serving) cells none)
        → Picked (is_cell_of c) cells none
        → c' ≡ c
        → Correlated cells c c'

  abbrev pub AllCorrelated : List CellInfo → List CaComponent → List CaComponent → Type 0
  AllCorrelated cells [] [] = Unit {0}
  AllCorrelated cells (c ∷ ca) (c' ∷ ca') = Correlated cells c c' × AllCorrelated cells ca ca'
  AllCorrelated cells _ _ = ⊥

  fill_primary-FilledPrimary :
      (c : CaComponent) (cell : CellInfo) → FilledPrimary c cell (fill_primary tenths_mhz c cell)
  unfolding fill_primary
  fill_primary-FilledPrimary c cell =
      let is_nr = same cell.rat tech_5g_nr in
      record {
        band = unless_known_if c.band cell.band (format_band cell.band is_nr);
        dl_bw =
            unless_known_if c.dl_bw cell.bandwidth
              (format_bandwidth tenths_mhz cell.bandwidth is_nr);
        pci = unless_known c.pci cell.pci;
        arfcn = unless_known c.arfcn cell.arfcn;
        rsrp = unless_level c.rsrp cell.rsrp;
        rsrq = unless_level c.rsrq cell.rsrq;
        sinr = unless_level c.sinr cell.sinr;
        rest = refl;
      }

  fill_secondary-FilledSecondary :
      (c : CaComponent) (cell : CellInfo)
      → FilledSecondary c cell (fill_secondary tenths_mhz c cell)
  unfolding fill_secondary
  fill_secondary-FilledSecondary c cell =
      let is_nr = same cell.rat tech_5g_nr in
      record {
        band = unless_known_if c.band cell.band (format_band cell.band is_nr);
        dl_bw =
            unless_known_if c.dl_bw cell.bandwidth
              (format_bandwidth tenths_mhz cell.bandwidth is_nr);
        sinr = unless_level c.sinr cell.sinr;
        rest = refl;
      }

-- one more cell in front, which does not pass the test
skip :
    (test : CellInfo → Bool) (d : CellInfo) (cells : List CellInfo) (o : Option CellInfo)
    → test d ≡ false
    → Picked test cells o
    → Picked test (d ∷ cells) o
skip test d cells none h (none_fits all) = none_fits (h, all)
skip test d cells (some cell) h (first_fits _ front back e fits all) =
    first_fits cell (d ∷ front) back (ap (λ l. d ∷ l) e) fits (h, all)

serving_cell-Picked : (cells : List CellInfo) → Picked (λ d. d.serving) cells (serving_cell cells)
unfolding serving_cell
serving_cell-Picked [] = none_fits tt
serving_cell-Picked (d ∷ cells) =
    if_cases (Picked (λ d. d.serving) (d ∷ cells)) d.serving (some d) (serving_cell cells)
      (λ serves. first_fits d [] cells refl serves tt)
      (λ idle. skip (λ d. d.serving) d cells (serving_cell cells) idle (serving_cell-Picked cells))

matching_cell-Picked :
    (c : CaComponent) (cells : List CellInfo) → Picked (is_cell_of c) cells (matching_cell c cells)
unfolding matching_cell
matching_cell-Picked c [] = none_fits tt
matching_cell-Picked c (d ∷ cells) =
    if_cases (Picked (is_cell_of c) (d ∷ cells)) (is_cell_of c d) (some d) (matching_cell c cells)
      (λ fits. first_fits d [] cells refl fits tt)
      (λ differs.
        skip (is_cell_of c) d cells (matching_cell c cells) differs (matching_cell-Picked c cells))

module _ (tenths_mhz : ℕ → Text) where
  fill_by-Correlated :
      (cells : List CellInfo) (c : CaComponent) (o : Option CellInfo)
      → (c.component ≡ codes "PCC" → Picked (λ d. d.serving) cells none)
      → Picked (is_cell_of c) cells o
      → Correlated tenths_mhz cells c (fill_by tenths_mhz c o)
  unfolding fill_by
  fill_by-Correlated cells c none unserved picked = alone unserved picked refl
  fill_by-Correlated cells c (some cell) unserved picked =
      by_match cell unserved picked (fill_secondary-FilledSecondary tenths_mhz c cell)

  correlate_component-Correlated :
      (cells : List CellInfo) (c : CaComponent) (serving : Option CellInfo)
      → Picked (λ d. d.serving) cells serving
      → Correlated tenths_mhz cells c (correlate_component tenths_mhz cells serving c)
  unfolding correlate_component
  correlate_component-Correlated cells c none served =
      fill_by-Correlated cells c (matching_cell c cells) (λ _. served)
        (matching_cell-Picked c cells)
  correlate_component-Correlated cells c (some cell) served =
      if_cases (Correlated tenths_mhz cells c) (same c.component (codes "PCC"))
        (fill_primary tenths_mhz c cell) (fill_by tenths_mhz c (matching_cell c cells))
        (λ pcc.
          by_serving cell ((same_iff c.component (codes "PCC")).0 pcc) served
            (fill_primary-FilledPrimary tenths_mhz c cell))
        (λ scc.
          fill_by-Correlated cells c (matching_cell c cells)
            (λ e. absurd (ground (arith, scc, (same_iff c.component (codes "PCC")).1 e)))
            (matching_cell-Picked c cells))

  correlate_all-AllCorrelated :
      (cells : List CellInfo) (serving : Option CellInfo) (ca : List CaComponent)
      → Picked (λ d. d.serving) cells serving
      → AllCorrelated tenths_mhz cells ca (correlate_all tenths_mhz cells serving ca)
  unfolding correlate_all
  correlate_all-AllCorrelated cells serving [] served = tt
  correlate_all-AllCorrelated cells serving (c ∷ ca) served = (
    correlate_component-Correlated cells c serving served,
    correlate_all-AllCorrelated cells serving ca served,
  )

  untouched : (ca : List CaComponent) → AllCorrelated tenths_mhz [] ca ca
  untouched [] = tt
  untouched (c ∷ ca) = (alone (λ _. none_fits tt) (none_fits tt) refl, untouched ca)

  -- For any carriers and cells, `CorrelateCAWithCells` returns the carriers in their order. Each of them is
  -- the carrier that was given, but for what it lacked and its cell tells. The cell of the primary carrier is
  -- the first serving one, which gives the band, the bandwidth, the PCI, the channel number and the levels. The cell
  -- of any other carrier, and of the primary one where no cell serves, is the first with its known PCI or its
  -- known channel number, which gives the band, the bandwidth and the SINR. A carrier without a cell stays.
  pub correlate_ca_with_cells-Filled :
      (ca : List CaComponent) (cells : List CellInfo)
      → AllCorrelated tenths_mhz cells ca (correlate_ca_with_cells tenths_mhz ca cells)
  unfolding correlate_ca_with_cells
  correlate_ca_with_cells-Filled [] cells = tt
  correlate_ca_with_cells-Filled (c ∷ ca) [] = untouched (c ∷ ca)
  correlate_ca_with_cells-Filled (c ∷ ca) (d ∷ cells) =
      correlate_all-AllCorrelated (d ∷ cells) (serving_cell (d ∷ cells)) (c ∷ ca)
        (serving_cell-Picked (d ∷ cells))
