-- ===== src/Api/Cookie.antt =====
-- `readCookie` of frontend/src/lib/api.ts. `document.cookie` is an argument, the jar.
pub mod Laws
use mathlib.Core.Option
use crag_project.Base.{◌++◌, Option, find?, drop, []}
use crag_project.Text.{Text, codes, starts_with, split, join}

-- document.cookie.split('; ').find((entry) => entry.startsWith(`${name}=`))
-- row?.split('=').slice(1).join('=')
unfoldable pub read_cookie : Text → Text → Option Text
read_cookie name jar =
    let row = find? (λ entry. starts_with entry (name ++ codes "=")) (split (codes "; ") jar) in
    Option.map (λ r. join (codes "=") (drop 1 (split (codes "=") r))) row
