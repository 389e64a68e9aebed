-- ===== src/Zerohop/Meta.antt =====
-- The sender and the destination that the metadata of src/floodgate/zerohop.py hold for a JSON packet.
use floodgate.Common.{String, true, false, Option, none, some, ◌≡◌, refl, ◌∙◌, ◌==◌}
use floodgate.Value.{Value, Fields, end, get}
use floodgate.Value.Laws.{get-insert}
use floodgate.Zerohop.{copied, collect, json_meta}

get-copied :
    (o : Option Value) (key other : String) (meta : Fields)
    → (key == other) ≡ false
    → get (copied o key meta) other ≡ get meta other
get-copied none key other meta e = refl
get-copied (some v) key other meta e = rw (get-insert meta key other v, e)

get-copied_here :
    (o : Option Value) (key : String) (meta : Fields)
    → (key == key) ≡ true
    → get meta key ≡ none
    → get (copied o key meta) key ≡ o
get-copied_here none key meta r e = e
get-copied_here (some v) key meta r e = rw (get-insert meta key key v, r)

-- The sender of a packet's metadata is its `from`.
pub json_meta_sender : (d : Fields) → get (json_meta d) "sender" ≡ get d "from"
unfolding json_meta collect get
json_meta_sender d =
    get-copied (get d "via_mqtt") "via_mqtt" "sender" _ refl
    ∙ get-copied (get d "hop_start") "hop_start" "sender" _ refl
    ∙ get-copied (get d "to") "destination" "sender" _ refl
    ∙ get-copied_here (get d "from") "sender" _ refl
        (get-copied (get d "id") "packet_id" "sender" end refl)

-- The destination of a packet's metadata is its `to`.
pub json_meta_destination : (d : Fields) → get (json_meta d) "destination" ≡ get d "to"
unfolding json_meta collect get
json_meta_destination d =
    get-copied (get d "via_mqtt") "via_mqtt" "destination" _ refl
    ∙ get-copied (get d "hop_start") "hop_start" "destination" _ refl
    ∙ get-copied_here (get d "to") "destination" _ refl (
        get-copied (get d "from") "sender" "destination" _ refl
        ∙ get-copied (get d "id") "packet_id" "destination" end refl)
