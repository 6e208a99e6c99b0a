-- ===== src/Uav/Tests.antt =====
-- A merge of two channels over one.
use mpfc.Prelude.{◌≡◌, some, [], ◌∷◌}
use mpfc.Json.{null, str}
use mpfc.Uav.{merge_aux}
use mpfc.Uav.Channels.{channel, channel-merge_aux}

channel-merge_aux_example :
    channel 1 (merge_aux (str "1.0" ∷ []) (null ∷ str "0.5" ∷ [])) ≡ some (str "0.5")
channel-merge_aux_example = channel-merge_aux 1 (str "1.0" ∷ []) (null ∷ str "0.5" ∷ [])
