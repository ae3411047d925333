-- ===== src/Contract/Tickets.antt =====
-- The statuses of tickets: those that the server's handlers leave, and those that the client's type has.
use crag_project.Base.{true, ◌≡◌}
use crag_project.Text.{codes}
use crag_project.Api.Shapes.{word, conforms}
use crag_project.Api.Shapes.Client.{ticket_status}
use crag_project.Server.Tickets.{Ticket, Tickets}

-- The status as the server writes it is one that the client's type has.
abbrev pub IsKnown : Ticket → Type 0
IsKnown t = conforms ticket_status (word (codes t.status)) ≡ true
