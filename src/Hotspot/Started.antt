-- ===== src/Hotspot/Started.antt =====
-- internal/usecase/hotspot.go: what `HotspotStart` hands to the repository, and what it leaves behind.
use proton5g.Base.{true, false, [], ◌∷◌, Option, none, some, ◌≡◌, ◌⊎◌, Text, is_empty}
use proton5g.Hotspot.Config.{
  HotspotConfig, HotspotFault, no_repository, no_uplink, refused, validate_hotspot_config,
}
use proton5g.Hotspot.{text_or, start_config}
use proton5g.Hotspot.State.{running, error, start_ap, HotspotPort, HotspotEnv, Hotspot}

-- What becomes of a start with a request. `cfg` is the stored configuration with the request laid over it.
pub data Started (env : HotspotEnv) (req : HotspotConfig) (h : Hotspot)
    : Hotspot × Option HotspotFault → Type 0 where
  -- there is no repository, and nothing changes
  no_port : env.repository ≡ none → Started env req h (h, some no_repository)
  -- the configuration is refused with the error of its check, and nothing changes
  invalid :
      (port : HotspotPort) (e : HotspotFault)
      → env.repository ≡ some port
      → validate_hotspot_config env.parse_cidr (start_config port req h) ≡ some e
      → Started env req h (h, some e)
  -- there is no uplink, and nothing changes
  no_way_out :
      (port : HotspotPort)
      → env.repository ≡ some port
      → validate_hotspot_config env.parse_cidr (start_config port req h) ≡ none
      → text_or (start_config port req h).uplink_iface h.selected_net ≡ []
      → Started env req h (h, some no_uplink)
  -- the repository gets the valid configuration and the uplink, and its answer decides
  attempted :
      {h' : Hotspot} {e : Option HotspotFault} (port : HotspotPort) (cfg : HotspotConfig)
      (uplink : Text)
      → env.repository ≡ some port
      → cfg ≡ start_config port req h
      → validate_hotspot_config env.parse_cidr cfg ≡ none
      → is_empty uplink ≡ false
      → h'.calls ≡ start_ap cfg uplink ∷ h.calls
      → h'.config ≡ record cfg { enabled = h'.config.enabled }
      → ((port.start h.calls cfg uplink ≡ none)
          × (e ≡ none)
          × (h'.state ≡ running)
          × (h'.config.enabled ≡ true))
        ⊎ ((text : Text) × (port.start h.calls cfg uplink ≡ some text)
            × (e ≡ some (refused text))
            × (h'.state ≡ error)
            × (h'.message ≡ text)
            × (h'.config ≡ cfg))
      → Started env req h (h', e)
