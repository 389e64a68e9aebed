-- ===== src/Topic/Tests.antt =====
-- Topics of src/floodgate/zerohop.py's tests.
use floodgate.Common.{some, ◌≡◌, ◌↔◌}
use floodgate.Topic.{parse_meshtastic_topic}
use floodgate.Topic.Laws.{IsPacketTopic, parse_meshtastic_topic_iff}

parse_meshtastic_topic_iff_example :
    (parse_meshtastic_topic "msh/US/2/e/LongFast/!abcd1234" ≡ some ("LongFast", "e"))
    ↔ IsPacketTopic "msh/US/2/e/LongFast/!abcd1234" "LongFast" "e"
parse_meshtastic_topic_iff_example =
    parse_meshtastic_topic_iff "msh/US/2/e/LongFast/!abcd1234" "LongFast" "e"
