-- ===== src/Tests/System.antt =====
-- The pages for administrators at concrete data.
use crag_project.Base.{ℕ, true, false, ◌&&◌, none, some, [], ◌∷◌, ◌≡◌, refl, str_eq, ◌=?◌}
use crag_project.Text.{codes}
use crag_project.Text.Decimal.{decimal}
use crag_project.Types.{SystemStats}
use crag_project.Api.Errors.{axios_error, absent, error_status}
use crag_project.Dashboard.Admin.{health_words, admin_view}
use crag_project.Dashboard.Health.{all_green, health_words-operational}
use crag_project.System.Links.{SystemPage, query_logs_page, shown}
use crag_project.System.Refusal.{forget, wants_admin, error_of, shown-refused}
use crag_project.Tests.Data.{admin_user, loaded, date}

-- One dependency is down.
abbrev figures : SystemStats
figures = record {
  users = 2;
  documents = 3;
  ingestion_jobs = ("done", 3) ∷ [];
  conversations = 4;
  messages = 9;
  query_logs = 4;
  dependencies =
      record { name = "qdrant"; status = "ready"; detail = none }
      ∷ record { name = "neo4j"; status = "unavailable"; detail = none }
      ∷ [];
}

health_words-operational_example :
    str_eq (health_words (loaded figures)) "All systems operational"
    ≡ (true && (true && all_green (admin_view (codes "today") (some admin_user) (loaded figures))))
health_words-operational_example =
    health_words-operational (codes "today") (some admin_user) (loaded figures)

some_down : str_eq (health_words (loaded figures)) "All systems operational" ≡ false
unfolding health_words
some_down = unfold crag_project.Dashboard.Admin.all_ready crag_project.System.is_ready in refl

-- The account has lost its role: the answer is still cached.
abbrev forbidden : SystemPage ℕ
forbidden = query_logs_page (record {
  result = some [];
  is_loading = false;
  is_error = true;
  error = axios_error (some (record { status = 403; detail = absent }));
})

shown-refused_example :
    (shown date decimal decimal forbidden ≡ shown date decimal decimal (forget forbidden))
    × (wants_admin (shown date decimal decimal forbidden)
        ≡ (error_status (error_of forbidden) =? 403))
shown-refused_example = shown-refused date decimal decimal forbidden refl
