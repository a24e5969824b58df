-- ===== src/Types/Statistics.antt =====
-- portal/src/types/dashboard.ts, analytics.ts, aggregation.ts and health.ts: statistics. `W` are
-- the scores, numbers with fractions; an object used as a dictionary is a list of its entries.
use mutell_demo.Prelude.{ℕ, String, Option, List}
use mutell_demo.Types.{AggregationPeriod}

pub record DashboardStats (W : Type 0) : Type 0 where
  pub slots_today : ℕ
  pub slots_week : ℕ
  pub evaluated_today : ℕ
  pub failed_today : ℕ
  pub pending_evaluations : ℕ
  pub active_terminals : ℕ
  pub avg_score_week : Option W
  pub avg_score_month : Option W

pub record Aggregation (W : Type 0) : Type 0 where
  pub id : String
  pub tenant_id : String
  pub terminal_id : Option String
  pub period_type : AggregationPeriod
  pub period_start : String
  pub period_end : String
  pub slot_count : ℕ
  pub avg_overall : Option W
  pub avg_sentiment : Option W
  pub avg_politeness : Option W
  pub avg_compliance : Option W
  pub avg_resolution : Option W
  pub avg_upselling : Option W
  pub avg_response_time : Option W
  pub avg_honesty : Option W
  pub unclear_count : ℕ
  pub flag_counts : List (String × ℕ)
  pub computed_at : String

pub record ScoreBreakdown (W : Type 0) : Type 0 where
  pub overall : Option W
  pub sentiment : Option W
  pub politeness : Option W
  pub compliance : Option W
  pub resolution : Option W
  pub upselling : Option W
  pub response_time : Option W
  pub honesty : Option W

pub record TrendPoint (W : Type 0) : Type 0 where
  pub period : String
  pub overall : Option W
  pub sentiment : Option W
  pub politeness : Option W
  pub compliance : Option W

pub record TagStats : Type 0 where
  pub tag : String
  pub count : ℕ
  pub label : String

pub record AnalyticsSummary (W : Type 0) : Type 0 where
  pub total_slots : ℕ
  pub evaluated_slots : ℕ
  pub failed_slots : ℕ
  pub pending_slots : ℕ
  pub avg_scores : ScoreBreakdown W
  pub score_trend : List (TrendPoint W)
  pub tag_stats : List TagStats
  pub total_swearing_incidents : ℕ
  pub total_off_topic_incidents : ℕ
  pub total_unavailable_items : ℕ
  pub unavailable_item_frequency : List (String × ℕ)
  pub language_distribution : List (String × ℕ)
  pub status_distribution : List (String × ℕ)
  pub avg_duration_ms : Option W
  pub avg_tokens_used : Option W
  pub period_start : Option String
  pub period_end : Option String

pub record HealthStatus : Type 0 where
  pub database : String
  pub redis : String
  pub workers : String
