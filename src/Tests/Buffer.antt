-- ===== src/Tests/Buffer.antt =====
-- The buffer, the configuration and the health report.
use mathlib.Core.List.{Perm}
use logcenter_sdk_go.Base.{◌∷◌, ◌++◌}
use logcenter_sdk_go.Queue.{push}
use logcenter_sdk_go.Queue.Policy.{to_list, push-perm}
use logcenter_sdk_go.Config.{normalized}
use logcenter_sdk_go.Config.Normal.{IsNormal, normalized-IsNormal}
use logcenter_sdk_go.Stats.{Stats, snapshot, zero_counters}
use logcenter_sdk_go.Tests.Data.{full_queue, warn_event, config}

push-perm_example :
    Perm
      (warn_event ∷ full_queue.events)
      (to_list (push full_queue warn_event).1.dropped ++ (push full_queue warn_event).0.events)
push-perm_example = push-perm full_queue warn_event

normalized-IsNormal_example : IsNormal (normalized "go1" config)
normalized-IsNormal_example = normalized-IsNormal "go1" config

abbrev idle : Stats
idle = snapshot zero_counters
