-- ===== src/At/Tech/Endc.antt =====
-- internal/repository/at_parser.go: how the technology, the EN-DC details, the cells and the carriers
-- agree.
use mathlib.Core.Path.{subst}
use proton5g.Base.{
  Bool, true, false, ◌&&◌, ◌||◌, List, [], ◌∷◌, ◌≡◌, ◌↔◌, ◌⊎◌, inl, inr, refl, ap, ◌∙◌, arith,
  Bool-cases, if_cases, if◌then◌else◌, any, Text, same, same_refl, is_empty,
}
use proton5g.Base.Int.{ℤ, pos, eqb_ℤ}
use proton5g.Domain.{CellInfo, CaComponent, no_endc}
use proton5g.Domain.Enums.{tech_5g_nr, tech_5g_nsa, tech_5g_sa, tech_lte, tech_umts, tech_unknown}
use proton5g.At.Tech.{
  Seen, nothing_seen, is_nr_carrier, see_cell, see_cells, see_carrier, see_carriers, Detected,
  is_endc, is_sa, is_lte, classify, detect_radio_tech,
}

abbrev pub is_nr_cell : CellInfo → Bool
is_nr_cell c = same c.rat tech_5g_nr

-- a band of NR is only remembered with a cell of NR
abbrev NrKnown : Seen → Type 0
NrKnown s = (is_empty s.nr_band ≡ true) ⊎ (s.nr_cell ≡ true)

see_cell-NrKnown : (s : Seen) (c : CellInfo) → NrKnown s → NrKnown (see_cell s c)
unfolding see_cell
see_cell-NrKnown s c h = elim (Bool-cases (is_nr_cell c)) [
  | inl nr ↦ inr (ground (arith, nr))
  | inr other ↦ rw other (ground (arith, h))
]

see_cells-NrKnown : (cells : List CellInfo) (s : Seen) → NrKnown s → NrKnown (see_cells s cells)
unfolding see_cells
see_cells-NrKnown [] s h = h
see_cells-NrKnown (c ∷ cells) s h = see_cells-NrKnown cells (see_cell s c) (see_cell-NrKnown s c h)

see_carrier-NrKnown : (s : Seen) (c : CaComponent) → NrKnown s → NrKnown (see_carrier s c)
unfolding see_carrier
see_carrier-NrKnown s c h = ground (arith, h)

see_carriers-NrKnown : (ca : List CaComponent) (s : Seen) → NrKnown s → NrKnown (see_carriers s ca)
unfolding see_carriers
see_carriers-NrKnown [] s h = h
see_carriers-NrKnown (c ∷ ca) s h =
    see_carriers-NrKnown ca (see_carrier s c) (see_carrier-NrKnown s c h)

-- whether there is a cell of NR is whether one of the lists has one
see_cell-nr_cell : (s : Seen) (c : CellInfo) → (see_cell s c).nr_cell ≡ s.nr_cell || is_nr_cell c
unfolding see_cell
see_cell-nr_cell s c = refl

see_cells-nr_cell :
    (cells : List CellInfo) (s : Seen)
    → (see_cells s cells).nr_cell ≡ s.nr_cell || any is_nr_cell cells
unfolding see_cells
see_cells-nr_cell [] s = ground arith
see_cells-nr_cell (c ∷ cells) s =
    ground (arith, see_cells-nr_cell cells (see_cell s c), see_cell-nr_cell s c)

see_carrier-nr_cell :
    (s : Seen) (c : CaComponent) → (see_carrier s c).nr_cell ≡ s.nr_cell || is_nr_carrier c
unfolding see_carrier
see_carrier-nr_cell s c = ground arith

see_carriers-nr_cell :
    (ca : List CaComponent) (s : Seen)
    → (see_carriers s ca).nr_cell ≡ s.nr_cell || any is_nr_carrier ca
unfolding see_carriers
see_carriers-nr_cell [] s = ground arith
see_carriers-nr_cell (c ∷ ca) s =
    ground (arith, see_carriers-nr_cell ca (see_carrier s c), see_carrier-nr_cell s c)

-- the details agree with the technology and with what was seen
pub record Agrees (nr : Bool) (d : Detected) : Type 0 where
  pub dual : (d.endc.active ≡ true) ↔ (d.tech ≡ tech_5g_nsa)
  pub nr_seen : (is_empty d.endc.nr_band ≡ true) ⊎ (nr ≡ true)
  pub nr_used :
      (is_empty d.endc.nr_band ≡ true) ⊎ (same d.tech tech_5g_nsa || same d.tech tech_5g_sa ≡ true)
  pub lte_used :
      (is_empty d.endc.anchor_band ≡ true)
      ⊎ (same d.tech tech_5g_nsa || same d.tech tech_lte ≡ true)

-- two technologies with different texts
same_text : (t u : Text) → t ≡ u → same t u ≡ true
same_text t u e = rw e (same_refl u)

-- a technology without EN-DC details
plain-Agrees :
    (nr umts : Bool)
    → Agrees nr (record { tech = if umts then tech_umts else tech_unknown; endc = no_endc })
unfolding same
plain-Agrees nr true = record {
  dual = (λ e. cc, λ e. absurd (ground (arith, same_text tech_umts tech_5g_nsa e)));
  nr_seen = inl refl;
  nr_used = inl refl;
  lte_used = inl refl;
}
plain-Agrees nr false = record {
  dual = (λ e. cc, λ e. absurd (ground (arith, same_text tech_unknown tech_5g_nsa e)));
  nr_seen = inl refl;
  nr_used = inl refl;
  lte_used = inl refl;
}

classify-Agrees :
    (act : ℤ) (has_act : Bool) (reg_lte reg_5g : Text) (s : Seen)
    → NrKnown s
    → Agrees s.nr_cell (classify act has_act reg_lte reg_5g s)
unfolding classify same
classify-Agrees act has_act reg_lte reg_5g s h =
    if_cases (Agrees s.nr_cell) (is_endc act has_act reg_lte reg_5g s) _ _
      (λ _. record {
        dual = (λ _. refl, λ _. refl);
        nr_seen = h;
        nr_used = inr refl;
        lte_used = inr refl;
      })
      (λ _.
        if_cases (Agrees s.nr_cell) (is_sa act has_act reg_5g s) _ _
          (λ _. record {
            dual = (λ e. cc, λ e. absurd (ground (arith, same_text tech_5g_sa tech_5g_nsa e)));
            nr_seen = h;
            nr_used = inr refl;
            lte_used = inl refl;
          })
          (λ _.
            if_cases (Agrees s.nr_cell) (is_lte act has_act reg_lte s) _ _
              (λ _. record {
                dual = (λ e. cc, λ e. absurd (ground (arith, same_text tech_lte tech_5g_nsa e)));
                nr_seen = inl refl;
                nr_used = inl refl;
                lte_used = inr refl;
              })
              (λ _. plain-Agrees s.nr_cell ((has_act && eqb_ℤ act (pos 2)) || s.umts_cell))))

-- For any access technology code, registration states, cells and carriers: the EN-DC details are marked active
-- exactly when the technology is 5G NSA; they name an NR band only if a cell or a carrier of NR was reported, and
-- only for 5G NSA or 5G SA; and they name an LTE anchor band only for 5G NSA or LTE.
pub detect_radio_tech-Agrees :
    (act : ℤ) (has_act : Bool) (reg_lte reg_5g : Text) (cells : List CellInfo)
    (ca : List CaComponent)
    → Agrees
        (any is_nr_cell cells || any is_nr_carrier ca)
        (detect_radio_tech act has_act reg_lte reg_5g cells ca)
unfolding detect_radio_tech
detect_radio_tech-Agrees act has_act reg_lte reg_5g cells ca =
    let s = see_carriers (see_cells nothing_seen cells) ca in
    let seen : s.nr_cell ≡ any is_nr_cell cells || any is_nr_carrier ca =
      see_carriers-nr_cell ca (see_cells nothing_seen cells)
      ∙ ap (λ (b : Bool). b || any is_nr_carrier ca) (see_cells-nr_cell cells nothing_seen) in
    let first = see_cells-NrKnown cells nothing_seen (inl refl) in
    subst (λ b. Agrees b (classify act has_act reg_lte reg_5g s)) seen
      (classify-Agrees act has_act reg_lte reg_5g s
        (see_carriers-NrKnown ca (see_cells nothing_seen cells) first))
