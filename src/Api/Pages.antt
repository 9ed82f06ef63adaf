-- ===== src/Api/Pages.antt =====
-- src/api/main.py, list_campaigns_route, and src/api/deps.py, get_pagination.
pub mod Cover
pub mod Order
use cmo_agent.Common.{
  ℕ, zero, suc, ◌+◌, ◌-◌, ◌*◌, ◌/◌, ◌≤◌, ◌<◌, String, ◌≡◌, refl, ap, ◌∙◌, sym, Bool, true, false,
  List, [], ◌∷◌, ◌++◌, length, take, max, min, arith, ltb, if◌then◌else◌, append_nil,
}
use cmo_agent.Common.Int.{ℤ, pos, negsuc}
use cmo_agent.Db.Tables.{Sql, select, count, scoped, any_row, drop}
use cmo_agent.Db.Rows.{CampaignRow, Db}
use cmo_agent.Db.Queries.Campaigns.{list_campaigns}

pub record Pagination : Type 0 where
  pub page : ℕ
  pub page_size : ℕ
  pub offset : ℕ

-- `max(1, page)`
abbrev pub clamp_page : ℤ → ℕ
clamp_page (pos n) = max 1 n
clamp_page (negsuc n) = 1

-- `max(1, min(100, page_size))`
abbrev pub clamp_size : ℤ → ℕ
clamp_size (pos n) = max 1 (min 100 n)
clamp_size (negsuc n) = 1

unfoldable pub get_pagination : ℤ → ℤ → Pagination
get_pagination page page_size = record {
  page = clamp_page page;
  page_size = clamp_size page_size;
  offset = (clamp_page page - 1) * clamp_size page_size;
}

pub record CampaignPage : Type 0 where
  pub items : List CampaignRow
  pub total : ℕ
  pub page : ℕ
  pub page_size : ℕ
  pub total_pages : ℕ

-- `math.ceil(total / page_size)`, which is exact below 2 ^ 53
abbrev pub pages_for : ℕ → ℕ → ℕ
pages_for total size = if ltb 0 size then (total + size - 1) / size else 0

unfoldable pub list_campaigns_route : Sql → String → ℤ → ℤ → Db → CampaignPage
list_campaigns_route S w page page_size db =
    let size = clamp_size page_size in
    let (campaigns, total) = list_campaigns S w ((clamp_page page - 1) * size) size db in
    record {
      items = campaigns;
      total = total;
      page = clamp_page page;
      page_size = size;
      total_pages = pages_for total size;
    }
