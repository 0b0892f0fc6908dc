-- ===== src/At/Client/Commands.antt =====
-- internal/repository/at_cmd.go: the commands with parameters.
use proton5g.Base.{Bool, ◌++◌, if◌then◌else◌, Text, codes}
use proton5g.Base.Int.{ℤ, pos, leb_ℤ}
use proton5g.At.Band.{format_int}

-- the context that a command names
abbrev pub cid_or_one : ℤ → ℤ
cid_or_one cid = if leb_ℤ cid (pos 0) then pos 1 else cid

-- `CmdCGDCONTSet`, `CmdGTUSBMODESet`, `CmdCGPADDR`, `CmdGTDNS` and `CmdCGACTSet`
unfoldable pub cmd_cgdcont_set : ℤ → Text → Text → Text
unfolding format_int
cmd_cgdcont_set cid pdp apn =
    codes "AT+CGDCONT="
    ++ format_int cid
    ++ codes ",\""
    ++ pdp
    ++ codes "\",\""
    ++ apn
    ++ codes "\""

unfoldable pub cmd_gtusbmode_set : ℤ → Text
unfolding format_int
cmd_gtusbmode_set mode = codes "AT+GTUSBMODE=" ++ format_int mode

unfoldable pub cmd_cgpaddr : ℤ → Text
unfolding format_int
cmd_cgpaddr cid = codes "AT+CGPADDR=" ++ format_int (cid_or_one cid)

unfoldable pub cmd_gtdns : ℤ → Text
unfolding format_int
cmd_gtdns cid = codes "AT+GTDNS=" ++ format_int (cid_or_one cid)

unfoldable pub cmd_cgact_set : ℤ → Bool → Text
unfolding format_int
cmd_cgact_set cid active =
    codes "AT+CGACT=" ++ (if active then codes "1," else codes "0,") ++ format_int (cid_or_one cid)
