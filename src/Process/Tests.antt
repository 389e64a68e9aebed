-- ===== src/Process/Tests.antt =====
-- Messages of src/floodgate/zerohop.py, processed.
use Prim.Native.String
use floodgate.Common.{String, some, none, true, [], ◌∷◌, ◌≡◌, ◌↔◌, inl, inr, refl, arith}
use floodgate.Value.Int.{pos}
use floodgate.Process.Format.{fmt_node}
use floodgate.Process.Format.Hex.{chars}
use floodgate.Process.Format.Hex.Digits.{of_hex}
use floodgate.Process.Format.Widths.{fmt_node-number}
use floodgate.Value.{int, arr, nil, bool, field, end, get}
use floodgate.Config.{Config}
use floodgate.Topic.{parse_meshtastic_topic}
use floodgate.Topic.Split.{split}
use floodgate.Common.Text.{contains}
use floodgate.Samples.{world, forged}
use floodgate.Service.{start}
use floodgate.Process.{drop, modify, passthru, process_message}
use floodgate.Process.Accounts.{Outcome, process_message_accounts}
use floodgate.Process.Laws.Drops.{IsToDrop, process_message-drop_iff}
use floodgate.Process.Laws.Modifies.{IsToModify, process_message-modify_iff}
use floodgate.Process.Bypass.{process_message_unprintable}

abbrev topic : String
topic = "msh/US/2/json/LongFast/!abcd1234"

abbrev config : Config
config = record {
  values = field "zerohop_enabled" (bool true) (field "drop_enabled" (bool true) end);
  zerohop_channels_set = some ("LongFast" ∷ []);
  drop_channels_set = some none;
  drop_portnums_set = some ("TEXT_MESSAGE_APP" ∷ []);
}

topic_parses : parse_meshtastic_topic topic ≡ some ("LongFast", "json")
unfolding parse_meshtastic_topic split contains
topic_parses = refl

forged_sender : get (forged 5) "from" ≡ some (arr nil)
unfolding get
forged_sender = refl

process_message_accounts_example :
    Outcome start.stats
      (process_message world topic (5 ∷ []) config start).0
      (process_message world topic (5 ∷ []) config start).1.stats
process_message_accounts_example = process_message_accounts world topic (5 ∷ []) config start

process_message-drop_iff_example :
    ((process_message world topic (5 ∷ []) config start).0 ≡ drop)
    ↔ IsToDrop world topic (5 ∷ []) config
process_message-drop_iff_example = process_message-drop_iff world topic (5 ∷ []) config start

process_message-modify_iff_example :
    ((process_message world topic (5 ∷ []) config start).0 ≡ modify (some (0 ∷ [])))
    ↔ IsToModify world topic (5 ∷ []) (0 ∷ []) config
process_message-modify_iff_example =
    process_message-modify_iff world topic (5 ∷ []) (0 ∷ []) config start

process_message_unprintable_example :
    (process_message world topic (5 ∷ 0 ∷ []) config start).0 ≡ passthru
process_message_unprintable_example =
    process_message_unprintable world topic (5 ∷ 0 ∷ []) config start "LongFast" (forged 5)
      (arr nil) topic_parses refl (inr (inl (nil, refl))) (inl forged_sender)

fmt_node-number_example :
    (t : String) × ((fmt_node (some (int (pos 305441741))) ≡ some (String.◌++◌ "!" t))
      × ((chars t ≡ 8) × (of_hex t ≡ 305441741)))
fmt_node-number_example = fmt_node-number 305441741 (omega arith)
