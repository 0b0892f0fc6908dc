-- ===== src/Domain/Modes.antt =====
-- internal/pkg/domain/inventory.go: the data modes and methods of a request.
use proton5g.Base.{
  Option, none, some, Text, codes, same, is_empty, to_lower, trim_space, if◌then◌else◌, ◌||◌,
}

-- The modes that `ParseDataMode` returns.
pub data DataMode : Type 0 where
  auto rndis mbim : DataMode

-- The methods that `ParseDataMethod` returns.
pub data DataMethod : Type 0 where
  auto dhcp static : DataMethod

-- `ParseDataMode`, with `none` for its error
unfoldable pub parse_data_mode : Text → Option DataMode
unfolding to_lower trim_space same
parse_data_mode raw =
    let t = to_lower (trim_space raw) in
    if is_empty t || same t (codes "auto")
    then some DataMode.auto
    else if same t (codes "rndis") || same t (codes "net")
    then some rndis
    else if same t (codes "mbim")
    then some mbim
    else none

-- `ParseDataMethod`, with `none` for its error
unfoldable pub parse_data_method : Text → Option DataMethod
unfolding to_lower trim_space same
parse_data_method raw =
    let t = to_lower (trim_space raw) in
    if is_empty t || same t (codes "auto")
    then some DataMethod.auto
    else if same t (codes "dhcp")
    then some dhcp
    else if same t (codes "static")
    then some static
    else none
