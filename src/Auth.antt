-- ===== src/Auth.antt =====
-- frontend/src/context/AuthContext.tsx: who is signed in. The server's answers are arguments.
use crag_project.Base.{Bool, true, false, Option, none, some}
use crag_project.Types.{User}
use crag_project.Api.Errors.{Reply, ok, failed}

pub record AuthState : Type 0 where
  pub user : Option User
  pub loading : Bool

abbrev pub initial : AuthState
initial = record { user = none; loading = true }

unfoldable pub refresh : Reply User → AuthState → AuthState
refresh (ok u) a = record a { user = some u }
refresh (failed err) a = record a { user = none }

-- the effect that runs once: `refresh().finally(() => setLoading(false))`
unfoldable pub mount : Reply User → AuthState → AuthState
unfolding refresh
mount reply a = record (refresh reply a) { loading = false }

-- `login` and `register`: the promise is rejected with the error of the call.
unfoldable pub login : Reply User → AuthState → AuthState × Reply (Unit {0})
login (ok u) a = (record a { user = some u }, ok tt)
login (failed err) a = (a, failed err)

unfoldable pub register : Reply User → AuthState → AuthState × Reply (Unit {0})
register (ok u) a = (record a { user = some u }, ok tt)
register (failed err) a = (a, failed err)

-- `finally` clears the user and passes the error on
unfoldable pub logout : Reply (Unit {0}) → AuthState → AuthState × Reply (Unit {0})
logout reply a = (record a { user = none }, reply)
