-- ===== src/Monitor/Host.antt =====
-- internal/monitor/dsmi.go: the devices of the node, by the driver's management library.
pub mod Bounds
use ascend_device_plugin.Base.{
  ℕ, ℤ, pos, negsuc, ◌+◌, ◌-◌, ◌%◌, ◌^◌, String, List, [], ◌∷◌, Option, none, some, Result, ok, err,
  Error, wrap, or_wrap,
}

pub record DeviceStat : Type 0 where
  pub index : ℤ
  pub uuid : String
  pub device_type : String
  pub memory_used : ℕ
  pub memory_total : ℕ
  pub ai_core_pct : ℕ

-- A MemoryInfo of the library.
pub record MemoryInfo : Type 0 where
  pub memory_size : ℕ
  pub memory_available : ℕ

-- hwlog.InitRunLogger and DcInit by their errors, and the library's queries. DcGetDieID and
-- DcGetProductType are their first results, which the source uses whatever the error is.
pub record Dcmi : Type 0 where
  pub init_run_logger : Option Error
  pub dc_init : Option Error
  pub logic_ids : Result (List ℤ)
  pub card_and_device : ℤ → Result (ℤ × ℤ)
  pub die_id : ℤ → ℤ → String
  pub product_type : ℤ → ℤ → String
  pub memory_info : ℤ → ℤ → Result MemoryInfo
  pub ai_core_rate : ℤ → ℤ → Result ℤ

-- `a - b` of two uint64.
abbrev pub sub64 : ℕ → ℕ → ℕ
sub64 a b = (a + (2 ^ 64 - b)) % 2 ^ 64

-- uint32(x) of an int32.
abbrev pub to_uint32 : ℤ → ℕ
to_uint32 (pos n) = n
to_uint32 (negsuc n) = 2 ^ 32 - 1 - n

module _ (dcmi : Dcmi) where
  -- What dcMgrOnce runs: the error that it leaves, if any.
  unfoldable pub init_manager : Option Error
  init_manager = elim dcmi.init_run_logger [
    | some e ↦ some (wrap "hwlog init" e)
    | none ↦ elim dcmi.dc_init [ some e ↦ some (wrap "dcmi init" e) | none ↦ none ]
  ]

  -- memTotal and memUsed.
  unfoldable pub memory_of : ℤ → ℤ → ℕ × ℕ
  memory_of card device = elim (dcmi.memory_info card device) [
    | err e ↦ (0, 0)
    | ok info ↦ (info.memory_size, sub64 info.memory_size info.memory_available)
  ]

  unfoldable pub ai_core_pct_of : ℤ → ℤ → ℕ
  ai_core_pct_of card device = elim (dcmi.ai_core_rate card device) [
    | err e ↦ 0
    | ok rate ↦ to_uint32 rate
  ]

  unfoldable pub device_stat : ℤ → ℤ → ℤ → DeviceStat
  unfolding memory_of ai_core_pct_of
  device_stat logic_id card device =
      let (total, used) = memory_of card device in
      record {
        index = logic_id;
        uuid = dcmi.die_id card device;
        device_type = dcmi.product_type card device;
        memory_used = used;
        memory_total = total;
        ai_core_pct = ai_core_pct_of card device;
      }

  -- A device whose card is not known is left out.
  unfoldable pub stats_of : List ℤ → List DeviceStat
  stats_of [] = []
  stats_of (logic_id ∷ ids) =
      let rest = stats_of ids in
      elim (dcmi.card_and_device logic_id) [
        | err e ↦ rest
        | ok (card, device) ↦ device_stat logic_id card device ∷ rest
      ]

  unfoldable pub collect_host_device_stats : Result (List DeviceStat)
  collect_host_device_stats = elim init_manager [
    | some e ↦ err e
    | none ↦ elim dcmi.logic_ids [
      | err e ↦ err (wrap "get logic ids" e)
      | ok ids ↦ ok (stats_of ids)
    ]
  ]
