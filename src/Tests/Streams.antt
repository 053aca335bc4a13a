-- ===== src/Tests/Streams.antt =====
-- Two streams of ListAndWatch on the node of `Fixtures`: one takes the update, and the other never has it.
use ascend_device_plugin.Base.{
  ◌≡◌, refl, ap, ◌∙◌, inl, inr, [], ◌∷◌, sym, Error, Result, pos, ok, err, some, set, get_elem?,
  arith,
}
use ascend_device_plugin.Manager.Devices.{update_device, read_device}
use ascend_device_plugin.Manager.State.{
  should_ignore_device, should_check_ignored, lists_uuid, lists_index,
}
use ascend_device_plugin.Config.{is_empty}
use ascend_device_plugin.Server.Publish.{fingerprint}
use ascend_device_plugin.Server.Watch.{accepted, tick}
use ascend_device_plugin.Server.Watch.Synced.{Told, tick-Told}
use ascend_device_plugin.Server.Watch.Streams.{Handlers, listen, with_streams, listens}
use ascend_device_plugin.Server.Watch.Streams.Lost.{nothing, more, lost_update}
use ascend_device_plugin.Tests.Fixtures.{first_card, sample_manager, sample_driver}
use ascend_device_plugin.Tests.Publishing.{cluster, watching, counted_seven}

abbrev two_streams : Handlers
two_streams = with_streams watching ([] ∷ [] ∷ [])

round :
    Told sample_driver [] cluster accepted watching
      (tick sample_driver [] cluster accepted watching)
round = tick-Told sample_driver [] cluster accepted watching (pos 3) refl counted_seven

refreshed :
    update_device sample_driver [] sample_manager
    ≡ (ok tt, record sample_manager { devs = first_card ∷ [] })
unfolding update_device read_device should_ignore_device should_check_ignored lists_uuid lists_index
    is_empty
refreshed = refl

never : (e : Error) → ¬ (Path (Result (Unit {0})) (ok tt) (err e))
never e h = cc

recorded : round.2.server.last_published_devices ≡ fingerprint round.2.manager.devs
recorded = round.4 ∙ elim round.5 [
  | inl (e, p) ↦ absurd (never e (ap (λ x. x.0) (sym refreshed ∙ p)))
  | inr (inl stopped) ↦ absurd (cc)
  | inr (inr (inl late)) ↦ absurd (cc)
  | inr (inr (inr current)) ↦ current
]

-- Afterwards a third stream is opened.
abbrev after_round : Handlers
after_round = with_streams round.2 (set two_streams.streams 0 round.2.told)

lost_update_example :
    ((listen after_round).server.last_published_devices ≡ fingerprint round.2.manager.devs)
    × (get_elem? (listen after_round).streams 1 ≡ some [])
unfolding listen
lost_update_example =
    lost_update sample_driver two_streams 0 1 [] [] round.2 [] cluster round.0 round.1
      (listen after_round) refl refl (omega arith) round.3 recorded (more nothing listens refl)
