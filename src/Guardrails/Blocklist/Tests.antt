-- ===== src/Guardrails/Blocklist/Tests.antt =====
-- The blocklist on small databases.
use cmo_agent.Common.{◌≡◌, refl, true, none, some}
use cmo_agent.Common.Text.{lower}
use cmo_agent.Redis.Memory.{Memory, blank, memory}
use cmo_agent.Guardrails.Blocklist.{key, on_list, is_blocked, add_to_blocklist}

abbrev listed : Memory
listed = add_to_blocklist memory "cmo:" "acme" "domain" "Rival.com" blank

domain_is_listed :
    is_blocked memory "cmo:" "acme" none (some "rival.COM") none listed
    ≡ (true, some "Domain rival.COM is blocklisted")
unfolding is_blocked on_list add_to_blocklist key lower
domain_is_listed = refl
