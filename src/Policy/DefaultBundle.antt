-- ===== src/Policy/DefaultBundle.antt =====
-- policy/bundles/default.yaml, as policy/engine.py loads it: the data of the tests.
use ai_agent_security_firewa.Prelude.{true, false, none, some, List, [], ◌∷◌}
use ai_agent_security_firewa.Prelude.Order.{pos}
use ai_agent_security_firewa.Policy.Decision.{deny, allow}
use ai_agent_security_firewa.Policy.Rules.{Rule, Bundle}

abbrev pub r_research_001 : Rule
r_research_001 = record {
  id = "R-RESEARCH-001";
  priority = pos 100;
  role = "research_agent";
  tool = "http.get" ∷ [];
  effect = allow;
  critical_path = true;
  destination = some ("api.trusted-news.com" ∷ "*.arxiv.org" ∷ []);
  resource = none;
  max_data_class = some "internal";
  session_taint = some ("clean" ∷ "tainted" ∷ []);
  inspect = false;
  reason = "research agent may read its approved news/preprint sources";
}

abbrev pub r_research_002 : Rule
r_research_002 = record {
  id = "R-RESEARCH-002";
  priority = pos 200;
  role = "research_agent";
  tool = "http.post" ∷ "http.put" ∷ "db.query" ∷ [];
  effect = deny;
  critical_path = false;
  destination = none;
  resource = none;
  max_data_class = some "secret";
  session_taint = none;
  inspect = false;
  reason = "research_agent is read-only by charter — no writes, no DB access";
}

abbrev pub r_finance_001 : Rule
r_finance_001 = record {
  id = "R-FINANCE-001";
  priority = pos 100;
  role = "finance_agent";
  tool = "http.post" ∷ [];
  effect = allow;
  critical_path = true;
  destination = some ("api.approved-erp.com" ∷ []);
  resource = none;
  max_data_class = some "confidential";
  session_taint = some ("clean" ∷ []);
  inspect = true;
  reason = "finance agent may post to the approved ERP while its session is untainted";
}

abbrev pub r_finance_002 : Rule
r_finance_002 = record {
  id = "R-FINANCE-002";
  priority = pos 110;
  role = "finance_agent";
  tool = "db.query" ∷ [];
  effect = allow;
  critical_path = false;
  destination = none;
  resource = some ("ledger" ∷ "invoices" ∷ []);
  max_data_class = some "confidential";
  session_taint = some ("clean" ∷ "tainted" ∷ []);
  inspect = true;
  reason = "finance agent may read its own ledger/invoice tables";
}

abbrev pub r_finance_003 : Rule
r_finance_003 = record {
  id = "R-FINANCE-003";
  priority = pos 200;
  role = "finance_agent";
  tool = "http.get" ∷ [];
  effect = deny;
  critical_path = false;
  destination = none;
  resource = none;
  max_data_class = none;
  session_taint = none;
  inspect = false;
  reason = "finance_agent has no browsing charter — outbound reads are not its job";
}

abbrev pub r_finance_004 : Rule
r_finance_004 = record {
  id = "R-FINANCE-004";
  priority = pos 200;
  role = "finance_agent";
  tool = "email.send" ∷ [];
  effect = deny;
  critical_path = false;
  destination = none;
  resource = none;
  max_data_class = none;
  session_taint = none;
  inspect = false;
  reason = "email is an unaudited exfil channel this role has no approved use for";
}

abbrev pub r_support_001 : Rule
r_support_001 = record {
  id = "R-SUPPORT-001";
  priority = pos 100;
  role = "support_agent";
  tool = "db.query" ∷ [];
  effect = allow;
  critical_path = true;
  destination = none;
  resource = some ("customers" ∷ []);
  max_data_class = some "confidential";
  session_taint = some ("clean" ∷ "tainted" ∷ []);
  inspect = true;
  reason = "support agent may read customer records to answer tickets";
}

abbrev pub r_support_002 : Rule
r_support_002 = record {
  id = "R-SUPPORT-002";
  priority = pos 110;
  role = "support_agent";
  tool = "email.send" ∷ [];
  effect = allow;
  critical_path = false;
  destination = none;
  resource = some ("*@approved-helpdesk.com" ∷ []);
  max_data_class = some "internal";
  session_taint = some ("clean" ∷ []);
  inspect = false;
  reason = "support agent may reply through the approved helpdesk address while untainted";
}

abbrev pub r_support_003 : Rule
r_support_003 = record {
  id = "R-SUPPORT-003";
  priority = pos 200;
  role = "support_agent";
  tool = "db.query" ∷ [];
  effect = deny;
  critical_path = false;
  destination = none;
  resource = some ("hr_*" ∷ "credentials" ∷ []);
  max_data_class = some "secret";
  session_taint = none;
  inspect = false;
  reason =
      "support has no charter for HR or credentials tables — customers.* only, via R-SUPPORT-001";
}

abbrev pub r_support_004 : Rule
r_support_004 = record {
  id = "R-SUPPORT-004";
  priority = pos 200;
  role = "support_agent";
  tool = "http.post" ∷ "http.put" ∷ [];
  effect = deny;
  critical_path = false;
  destination = none;
  resource = none;
  max_data_class = none;
  session_taint = none;
  inspect = false;
  reason = "support_agent may only leave data via the approved helpdesk email rule above";
}

abbrev pub r_admin_001 : Rule
r_admin_001 = record {
  id = "R-ADMIN-001";
  priority = pos 100;
  role = "admin_agent";
  tool = "http.get" ∷ [];
  effect = allow;
  critical_path = true;
  destination = some ("internal-admin.internal" ∷ []);
  resource = none;
  max_data_class = some "internal";
  session_taint = some ("clean" ∷ "tainted" ∷ []);
  inspect = false;
  reason = "admin agent may reach the internal admin console";
}

abbrev pub r_admin_002 : Rule
r_admin_002 = record {
  id = "R-ADMIN-002";
  priority = pos 110;
  role = "admin_agent";
  tool = "db.query" ∷ [];
  effect = allow;
  critical_path = false;
  destination = none;
  resource = some ("*" ∷ []);
  max_data_class = some "secret";
  session_taint = some ("clean" ∷ []);
  inspect = true;
  reason = "admin agent may read any table while untainted, always inspected";
}

abbrev pub r_admin_003 : Rule
r_admin_003 = record {
  id = "R-ADMIN-003";
  priority = pos 200;
  role = "admin_agent";
  tool = "http.post" ∷ "http.put" ∷ [];
  effect = deny;
  critical_path = false;
  destination = none;
  resource = none;
  max_data_class = none;
  session_taint = none;
  inspect = false;
  reason =
      "no outbound POST/PUT destination is pre-approved for admin — add one explicitly, don't widen this";
}

abbrev pub r_admin_004 : Rule
r_admin_004 = record {
  id = "R-ADMIN-004";
  priority = pos 200;
  role = "admin_agent";
  tool = "email.send" ∷ [];
  effect = deny;
  critical_path = false;
  destination = none;
  resource = none;
  max_data_class = none;
  session_taint = none;
  inspect = false;
  reason = "same reasoning as R-ADMIN-003 — email is an unaudited exfil channel";
}

abbrev pub r_global_001 : Rule
r_global_001 = record {
  id = "R-GLOBAL-001";
  priority = pos 500;
  role = "research_agent";
  tool = "email.send" ∷ "file.read" ∷ [];
  effect = deny;
  critical_path = false;
  destination = none;
  resource = none;
  max_data_class = none;
  session_taint = none;
  inspect = false;
  reason = "research_agent has no charter for either tool";
}

abbrev pub r_global_002 : Rule
r_global_002 = record {
  id = "R-GLOBAL-002";
  priority = pos 500;
  role = "finance_agent";
  tool = "file.read" ∷ [];
  effect = deny;
  critical_path = false;
  destination = none;
  resource = none;
  max_data_class = none;
  session_taint = none;
  inspect = false;
  reason = "finance_agent has no charter for local file access";
}

abbrev pub default_rules : List Rule
default_rules =
    r_research_001 ∷ r_research_002 ∷ r_finance_001 ∷ r_finance_002 ∷ r_finance_003 ∷ r_finance_004
    ∷ r_support_001 ∷ r_support_002 ∷ r_support_003 ∷ r_support_004 ∷ r_admin_001 ∷ r_admin_002
    ∷ r_admin_003 ∷ r_admin_004 ∷ r_global_001 ∷ r_global_002 ∷ []

abbrev pub default_bundle : Bundle
default_bundle = record {
  version = "2026.08.10-1";
  not_valid_after = "2027-08-10T00:00:00Z";
  fail_safe_after = pos 3600;
  rules = default_rules;
  east_west_rules = [];
}
