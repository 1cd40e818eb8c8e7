-- ===== src/Pages/Agents.antt =====
-- frontend/src/features/agents/pages/AgentFormPage.tsx: the handlers of its two pages.
use change_quality_agent.Base.{String, some}
use change_quality_agent.Base.Json.{Json}
use change_quality_agent.Async.Wrappers.{create_agent, update_agent_draft}
use change_quality_agent.Pages.Handler.{Handler, returned, navigate, await_value}

-- AgentCreatePage: `onCreate`
unfoldable pub on_create : Json → Handler
on_create payload =
    await_value (create_agent payload) λ _. navigate "/agents" (some "Agent 已创建。") returned

-- AgentEditPage: `onUpdate`
unfoldable pub on_update : String → Json → Handler
on_update id payload =
    await_value (update_agent_draft id payload) λ _. navigate "/agents" (some "Agent 已保存。") returned
