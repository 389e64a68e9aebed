-- ===== src/Broker/ZeroHop/Json.antt =====
-- What subscribers get of a JSON packet on a zero-hop channel.
use floodgate.Common.{some, ◌≡◌, ◌⊎◌}
use floodgate.Value.Json.{JsonCodec}
use floodgate.Bytes.{Bytes}
use floodgate.Value.{obj, Fields}
use floodgate.Value.Int.{pos}
use floodgate.Config.{Config}
use floodgate.Config.Valid.Loads.{Loads}
use floodgate.Zerohop.Hops.{EffectiveHops}
use floodgate.Zerohop.Json.{zeroed}
use floodgate.Service.{Service}
use floodgate.Broker.{Broker}

-- A payload that loads to the object `d` itself or to `d` with its hop limit zeroed, with an effective
-- hop limit of 0 either way.
abbrev pub HasNoHops : JsonCodec → Fields → Bytes → Type 0
HasNoHops json d payload =
    (e : Fields) × (json.loads payload ≡ some (obj e))
    × EffectiveHops e (pos 0)
    × ((e ≡ d) ⊎ (e ≡ zeroed d))
