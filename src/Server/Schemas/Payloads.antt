-- ===== src/Server/Schemas/Payloads.antt =====
-- src/schemas.py: the bodies that the endpoints take. A field with a default may be left out; the
-- bounds on lengths (`min_length`, `max_length`) and the form of an e-mail address are left out.
use crag_project.Base.{[], ◌∷◌}
use crag_project.Api.Shapes.{Shape, nullable, one_of, object_of, ◌is◌, ◌may_be◌, flag, text}

abbrev pub register_request : Shape
register_request = object_of ("email" is text ∷ "password" is text ∷ "full_name" may_be text ∷ [])

abbrev pub login_request : Shape
login_request = object_of ("email" is text ∷ "password" is text ∷ [])

abbrev pub create_conversation_request : Shape
create_conversation_request =
    object_of ("title" may_be text ∷ "document_id" may_be (nullable text) ∷ [])

abbrev pub update_conversation_request : Shape
update_conversation_request = object_of ("title" is text ∷ [])

abbrev pub send_message_request : Shape
send_message_request = object_of ("content" is text ∷ [])

abbrev pub forgot_password_request : Shape
forgot_password_request = object_of ("email" is text ∷ [])

abbrev pub reset_password_request : Shape
reset_password_request = object_of ("token" is text ∷ "new_password" is text ∷ [])

abbrev pub create_support_thread_request : Shape
create_support_thread_request = object_of ("subject" is text ∷ "message" is text ∷ [])

abbrev pub support_reply_request : Shape
support_reply_request = object_of ("content" is text ∷ [])

abbrev pub support_status_update_request : Shape
support_status_update_request =
    object_of ("status" is (one_of ("open" ∷ "pending" ∷ "resolved" ∷ [])) ∷ [])

abbrev pub admin_user_status_update_request : Shape
admin_user_status_update_request = object_of ("is_active" is flag ∷ [])
