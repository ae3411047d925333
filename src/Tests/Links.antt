-- ===== src/Tests/Links.antt =====
-- The links of the pages at concrete data.
use crag_project.Base.{ℕ, some, [], ◌≡◌, refl, inl, str_eq}
use crag_project.Text.{codes}
use crag_project.Text.Decimal.{decimal}
use crag_project.Routing.{plain, Page, settle, page_at}
use crag_project.Home.{hero}
use crag_project.Home
use crag_project.Home.Links.{landing, settle-home}
use crag_project.System.Links.{documents_page}
use crag_project.System.Tables.{documents_view, table_view}
use crag_project.Dashboard.{Snapshot, user_view, is_admin}
use crag_project.Dashboard
use crag_project.Dashboard.Links.{ReadPage, start_page, system_page, read_view-settle}
use crag_project.Tests.Data.{plain_user, loaded, unloaded, date}
use crag_project.Tests.Router.{by_path, member}

settle-home_example : settle str_eq 2 member (plain "/login") ≡ some (landing member "/login")
settle-home_example =
    settle-home str_eq by_path member refl 2025 "/login" (unfold Home.view hero in inl refl)

abbrev loading_data : Snapshot
loading_data = record { documents = unloaded; conversations = unloaded }

abbrev start : ReadPage ℕ
start = start_page unloaded loading_data

read_view-settle_example :
    (p : Page) × (settle str_eq 1 member (plain "/documents")
      ≡ some (page_at p (plain "/documents")))
read_view-settle_example =
    read_view-settle date (codes "today") decimal decimal str_eq by_path start plain_user member
      "/documents" refl refl (unfold Dashboard.view user_view is_admin in inl refl)

-- A table without rows leads back to the System page.
abbrev none_uploaded : ReadPage ℕ
none_uploaded = system_page (documents_page (loaded []))

back_to_system :
    (p : Page) × (settle str_eq 1 member (plain "/system") ≡ some (page_at p (plain "/system")))
back_to_system =
    read_view-settle date (codes "today") decimal decimal str_eq by_path none_uploaded plain_user
      member "/system" refl refl (unfold documents_view table_view in inl refl)
