-- ===== src/Correlation/Events.antt =====
-- The contracts of models/logs.py that the correlation reads and writes. Times are numbers, ids are
-- numbered in the order of their texts, and an absent host or actor is the empty text.
use ai_cybersecurity_soc_ana.Common.{List, ℕ}
use ai_cybersecurity_soc_ana.Common.Text.{Text}

pub data EntityType : Type 0 where
  host user ip_address domain url file_hash file_path process : EntityType

pub record Entity : Type 0 where
  pub type : EntityType
  pub value : Text

pub record NormalizedEvent : Type 0 where
  pub event_id : ℕ
  pub event_time : ℕ
  pub host : Text
  pub actor : Text
  pub entities : List Entity

pub data CorrelationKind : Type 0 where
  shared_host shared_actor shared_address shared_process : CorrelationKind

-- The texts of the id and of the rationale are left out.
pub record Correlation : Type 0 where
  pub kind : CorrelationKind
  pub key : Text
  pub event_ids : List ℕ
  pub window_start : ℕ
  pub window_end : ℕ
