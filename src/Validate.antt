-- ===== src/Validate.antt =====
-- src/security.c: the checks of packets, permissions and configurations.
pub mod Exact
use nano_net_ull.Base.{ℕ, Bool, not, ◌&&◌, ◌||◌, List, [], ◌∷◌, ltb, ◌==◌, if◌then◌else◌}
use nano_net_ull.Config.{Config}
use nano_net_ull.Debug.{Message, bad_packet, bad_config, config_protocol, bad_multicast_group}
use nano_net_ull.Errno.{Code, success, einval, ebusy, eperm}
use nano_net_ull.Packet.{IpHdr, sizeof_iphdr, ipproto_tcp, ipproto_udp}

-- `allowed` is the verdict of `__ratelimit`. The length is compared as it was loaded.
unfoldable pub validate_packet : Bool → IpHdr → Code × List Message
validate_packet allowed ip =
    if not allowed
    then (ebusy, [])
    else if ip.saddr == 0 || ltb ip.tot_len sizeof_iphdr
    then (einval, bad_packet ∷ [])
    else (success, [])

-- `capable` is the verdict of `capable(CAP_NET_ADMIN)`.
unfoldable pub check_permissions : Bool → Code
check_permissions capable = if capable then success else eperm

pub validate_config : Config → Code × List Message
validate_config c =
    if c.target_ip == 0 || c.response_ip == 0 || c.target_port == 0 || c.response_port == 0
    then (einval, bad_config ∷ [])
    else if not (c.protocol == ipproto_tcp) && not (c.protocol == ipproto_udp)
    then (einval, config_protocol c.protocol ∷ [])
    else if c.multicast && c.multicast_group == 0
    then (einval, bad_multicast_group ∷ [])
    else (success, [])
