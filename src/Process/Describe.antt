-- ===== src/Process/Describe.antt =====
-- The `extra` dicts of the message records that _process_message_inner logs. `none` is an exception
-- of _fmt_node or of the relay's format.
use floodgate.Common.{String, Option, none, some, or_else}
use floodgate.Value.{Value, null, str, Fields, end, field, get}
use floodgate.Portnum.{◌>>=◌}
use floodgate.Process.Format.{fmt_node, fmt_relay}

-- The fields that every record begins with.
abbrev pub entry : String → String → String → String → Fields → Fields
entry outcome topic channel encoding rest = field "event" (str "message") (
    field "outcome" (str outcome) (
      field "topic" (str topic)
        (field "channel" (str channel) (field "encoding" (str encoding) rest))))

abbrev text_or_null : Option String → Value
text_or_null none = null
text_or_null (some s) = str s

-- `meta.get(key)`, as a value.
abbrev pub meta_get : Fields → String → Value
meta_get meta key = or_else (get meta key) null

-- The hop limit, in the records that have one.
abbrev with_hops : Fields → Fields → Fields
with_hops end rest = rest
with_hops (field k v d) rest = field k v rest

-- The fields that a record of a passed, untouched or modified packet ends in.
unfoldable pub description : Fields → Fields → Option Fields
description meta hops = do
  from ← fmt_node (get meta "sender")
  to ← fmt_node (get meta "destination")
  relay ← fmt_relay (get meta "relay_node")
  some (
      field "id" (meta_get meta "packet_id") (
        field "from" (str from) (
          field "to" (str to) (
            with_hops hops (
              field "hop_start" (meta_get meta "hop_start")
                (field "relay" relay (field "via_mqtt" (meta_get meta "via_mqtt") end)))))))

-- The fields that a record of a dropped packet ends in.
unfoldable pub drop_description : Fields → Option String → Option Fields
drop_description meta portnum = do
  from ← fmt_node (get meta "sender")
  to ← fmt_node (get meta "destination")
  some (
      field "portnum" (text_or_null portnum) (
        field "id" (meta_get meta "packet_id") (field "from" (str from) (field "to" (str to) end))))
