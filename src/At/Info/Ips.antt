-- ===== src/At/Info/Ips.antt =====
-- internal/repository/at_parser.go: the addresses in the answers about a PDP context.
use proton5g.Base.{
  ℕ, Bool, not, ◌&&◌, ◌||◌, List, [], ◌∷◌, Option, none, some, ltb, ◌==◌, if◌then◌else◌, length,
  get_or, all, Text, codes, same, is_empty, has_prefix, trim_space, contains, split_on, cut_at,
  unquoted, atoi,
}
use proton5g.Base.Int.{pos, within_ℤ}
use proton5g.At.Info.Lines.{first_line, first_some}

-- `quotedOrBareIPs`: the fields that are no number
unfoldable pub ip_fields : List Text → List Text
ip_fields [] = []
ip_fields (given ∷ parts) =
    let p = unquoted (trim_space given) in
    let rest = ip_fields parts in
    if is_empty p || same p (codes "0.0.0.0") || ((atoi p).good && not (contains (codes ".") p))
    then rest
    else p ∷ rest

unfoldable pub quoted_or_bare_ips : Text → List Text
unfolding ip_fields
quoted_or_bare_ips line =
    let rest : Text = elim (cut_at (λ c. c == b':') line) [ none ↦ line | some (_, back) ↦ back ] in
    ip_fields (split_on b',' rest)

-- a part of an address
abbrev pub is_octet : Text → Bool
is_octet p = let n = atoi p in n.good && within_ℤ (pos 0) (pos 255) n.value

-- `isIPv4Addr`
unfoldable pub is_ipv4_addr : Text → Bool
is_ipv4_addr s = let parts = split_on b'.' s in length parts == 4 && all is_octet parts

abbrev pub usable_ip : Text → Option Text
usable_ip tok = if is_ipv4_addr tok && not (same tok (codes "0.0.0.0")) then some tok else none

-- `ParseCGPADDR`
unfoldable pub cgpaddr_line : Text → Option Text
unfolding quoted_or_bare_ips is_ipv4_addr
cgpaddr_line line =
    if has_prefix (codes "+CGPADDR:") line
    then first_some usable_ip (quoted_or_bare_ips line)
    else none

unfoldable pub parse_cgpaddr : Text → Text
unfolding cgpaddr_line
parse_cgpaddr response = first_line cgpaddr_line [] response

abbrev pub ip_or_nothing : List Text → ℕ → Text
ip_or_nothing ips i =
    let ip = get_or ips i [] in if ltb i (length ips) && is_ipv4_addr ip then ip else []

-- `ParseGTDNS`
unfoldable pub gtdns_line : Text → Option (Text × Text)
unfolding quoted_or_bare_ips is_ipv4_addr
gtdns_line line =
    let ips = quoted_or_bare_ips line in
    if has_prefix (codes "+GTDNS:") line
    then some (ip_or_nothing ips 0, ip_or_nothing ips 1)
    else none

unfoldable pub parse_gtdns : Text → Text × Text
unfolding gtdns_line
parse_gtdns response = first_line gtdns_line ([], []) response
