-- ===== src/At/Tiered/Answers.antt =====
-- internal/repository/at_tiered.go: what the answers of the modem put into the cache.
use proton5g.Base.{not, ◌&&◌, ◌||◌, [], Option, none, some, if◌then◌else◌, Text, is_empty, same}
use proton5g.Domain.{ModemIdentity}
use proton5g.At.Info.{
  unknown_operator, parse_cops_full, parse_cpin, parse_cimi, parse_iccid, parse_cgdcont,
  parse_gtact, parse_info_line,
}
use proton5g.At.Info.Ips.{parse_cgpaddr, parse_gtdns}
use proton5g.At.Tiered.Cached.{Cache}

-- what an answer puts into the cache
unfoldable pub with_answer : (Text → Cache → Cache) → Option Text → Cache → Cache
with_answer f none cache = cache
with_answer f (some resp) cache = f resp cache

abbrev pub unless_blank : Text → Text → Text
unless_blank old new = if is_empty new then old else new

unfoldable pub put_cpin : Text → Cache → Cache
put_cpin resp cache = record cache { sim_state = parse_cpin resp }

unfoldable pub put_imsi : Text → Cache → Cache
put_imsi resp cache = record cache { imsi = unless_blank cache.imsi (parse_cimi resp) }

unfoldable pub put_iccid : Text → Cache → Cache
put_iccid resp cache = record cache { iccid = unless_blank cache.iccid (parse_iccid resp) }

unfoldable pub put_apn : Text → Cache → Cache
put_apn resp cache = record cache { apn = parse_cgdcont resp }

unfoldable pub put_rat : Text → Cache → Cache
put_rat resp cache = record cache { rat = parse_gtact resp }

unfoldable pub put_identity : (Text → ModemIdentity → ModemIdentity) → Text → Cache → Cache
put_identity f resp cache = record cache { identity = f (parse_info_line resp) cache.identity }

abbrev pub put_maker : Text → ModemIdentity → ModemIdentity
put_maker v i = record i { manufacturer = unless_blank i.manufacturer v }

abbrev pub put_model : Text → ModemIdentity → ModemIdentity
put_model v i = record i { model = unless_blank i.model v }

abbrev pub put_firmware : Text → ModemIdentity → ModemIdentity
put_firmware v i = record i { firmware = unless_blank i.firmware v }

abbrev pub put_imei : Text → ModemIdentity → ModemIdentity
put_imei v i = record i { imei = unless_blank i.imei v }

-- an operator that is not known does not take the place of one that was
unfoldable pub put_cops : Text → Cache → Cache
put_cops resp cache =
    let c = parse_cops_full resp in
    record cache {
      operator =
          if not (is_empty c.oper)
            && (not (same c.oper unknown_operator) || is_empty cache.operator)
          then c.oper
          else cache.operator;
      cops_act = c.act;
      has_cops_act = c.has_act;
    }

unfoldable pub put_address : Text → Cache → Cache
put_address resp cache = record cache {
  pdp = record cache.pdp { ip = parse_cgpaddr resp; gateway = [] };
}

unfoldable pub put_dns : Text → Cache → Cache
put_dns resp cache = record cache {
  pdp = record cache.pdp { dns1 = (parse_gtdns resp).0; dns2 = (parse_gtdns resp).1 };
}
