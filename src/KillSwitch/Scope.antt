-- ===== src/KillSwitch/Scope.antt =====
-- src/kill_switch/model.rs, `mod scope` and `mod on_queued`, and `mod scope` of
-- src/platform_kill_switch/model.rs: the texts stored in the `scope` and `on_queued` columns.
use messgr.Base.{String}

abbrev pub global : String
global = "global"

abbrev pub channel : String
channel = "channel"

abbrev pub producer : String
producer = "producer"

abbrev pub producer_channel : String
producer_channel = "producer_channel"

abbrev pub campaign : String
campaign = "campaign"

abbrev pub platform : String
platform = "platform"

abbrev pub tenant : String
tenant = "tenant"

abbrev pub hold : String
hold = "hold"

abbrev pub discard : String
discard = "discard"
