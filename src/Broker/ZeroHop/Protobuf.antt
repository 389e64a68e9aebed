-- ===== src/Broker/ZeroHop/Protobuf.antt =====
-- What subscribers get of a protobuf packet on a zero-hop channel.
use floodgate.Common.{some, ◌≡◌, ◌⊎◌}
use floodgate.Proto.{Meshtastic}
use floodgate.Bytes.{Bytes}
use floodgate.Config.{Config}
use floodgate.Config.Valid.Loads.{Loads}
use floodgate.Service.{Service}
use floodgate.Broker.{Broker}

-- A payload that parses to the envelope, or to the envelope with the hop limit of its packet zeroed,
-- the hop limit being 0 either way.
abbrev pub HasNoHops :
    {Envelope Packet : Type 0} → Meshtastic Envelope Packet → Envelope → Packet → Bytes → Type 0
HasNoHops {Envelope} {Packet} proto env pkt payload =
    (env' : Envelope) × (pkt' : Packet) × (proto.parse payload ≡ some env')
    × (proto.packet env' ≡ some pkt')
    × (proto.hop_limit pkt' ≡ 0)
    × (((env' ≡ env) × (pkt' ≡ pkt)) ⊎ ((env' ≡ proto.zero_hop env) × (pkt' ≡ proto.zeroed pkt)))
