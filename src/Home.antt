-- ===== src/Home.antt =====
-- frontend/src/pages/Home.tsx: the page for visitors. `year` is the current one.
pub mod Links
use crag_project.Base.{ℕ, String, List, [], ◌∷◌, ◌++◌}
use crag_project.Text.{codes}
use crag_project.Text.Decimal.{decimal}
use crag_project.Ui.{Widget, words, text, link, each}
use crag_project.System.{View}

pub record Feature : Type 0 where
  pub title : String
  pub description : String

abbrev feature : String → String → Feature
feature title description = record { title = title; description = description }

abbrev pub features : List Feature
features =
    feature "Hybrid retrieval"
      "Combines Qdrant vector search with a Neo4j knowledge graph for answers that draw on both semantic and structural context."
    ∷ feature "Self-correcting RAG"
        "Grades every retrieved chunk, rewrites weak queries, and falls back to web search when your documents fall short."
    ∷ feature "Secure by default"
        "Argon2 password hashing, database-backed sessions, and CSRF protection built into every request."
    ∷ feature "Cited, grounded answers"
        "Every response ships with a confidence score, web-search provenance, and traceable reasoning steps."
    ∷ []

pub record Step : Type 0 where
  pub step : String
  pub title : String
  pub description : String

abbrev numbered : String → String → String → Step
numbered step title description = record { step = step; title = title; description = description }

abbrev pub steps : List Step
steps =
    numbered "01" "Upload your documents"
      "Drop in PDFs, text files, or markdown. A background worker parses, embeds, and indexes them."
    ∷ numbered "02" "We build your graph"
        "Chunks land in Qdrant while entities and relationships are extracted into a Neo4j knowledge graph."
    ∷ numbered "03" "Ask anything"
        "Chat with your knowledge base and get grounded, cited answers with confidence scoring."
    ∷ []

-- An entry of `stats`.
pub record Fact : Type 0 where
  pub value : String
  pub label : String

abbrev fact : String → String → Fact
fact value label = record { value = value; label = label }

abbrev pub stats : List Fact
stats =
    fact "Hybrid" "vector + graph retrieval"
    ∷ fact "3-way" "relevance grading with correction"
    ∷ fact "Multi-user" "sessions, roles, and CSRF"
    ∷ []

-- The bar at the top, and the claim below it.
unfoldable pub hero : View
hero =
    words "Agentic RAG"
    ∷ link "/login" "Log in"
    ∷ link "/register" "Get started"
    ∷ words "Corrective RAG · Agentic RAG · LangGraph"
    ∷ words "Ask questions your documents actually answer"
    ∷ words
        "Upload your knowledge base and get cited, grounded answers from a self-correcting retrieval pipeline that never trusts a bad retrieval twice."
    ∷ link "/register" "Create your account"
    ∷ link "/login" "Log in to continue"
    ∷ []

-- The picture of a chat.
unfoldable pub demo : View
demo =
    words "chat — ask anything about your documents"
    ∷ words "What are the key benefits of the hybrid retrieval approach in this system?"
    ∷ words
        "The system combines semantic search over vector embeddings with structural traversal over a knowledge graph, so answers surface both related passages and the relationships between them."
    ∷ words "Confidence 0.91"
    ∷ words "Web search used"
    ∷ words "3 sources cited"
    ∷ words "Ask anything about your documents…"
    ∷ []

unfoldable pub fact_row : Fact → View
fact_row f = words f.value ∷ words f.label ∷ []

unfoldable pub feature_row : Feature → View
feature_row f = words f.title ∷ words f.description ∷ []

unfoldable pub step_row : Step → View
step_row s = words s.step ∷ words s.title ∷ words s.description ∷ []

-- The invitation at the end.
unfoldable pub invitation : View
invitation =
    words "Ready to talk to your documents?"
    ∷ words "Create an account in seconds, upload your first file, and start asking questions."
    ∷ link "/register" "Get started free"
    ∷ link "/login" "Log in"
    ∷ []

unfoldable pub view : ℕ → View
view year =
    hero
    ++ (demo
        ++ (each fact_row stats
            ++ (words "Everything you need to talk to your knowledge base"
                ∷ words
                    "A production-grade retrieval pipeline wrapped in a clean, multi-user workspace."
                ∷ (each feature_row features
                    ++ (words "From upload to answer in three steps"
                        ∷ (each step_row steps
                            ++ (invitation
                                ++ words "Agentic RAG"
                                  ∷ text (
                                      codes "© "
                                      ++ (decimal year
                                          ++ codes " Agentic RAG · LangGraph · Qdrant · Neo4j"))
                                  ∷ [])))))))
