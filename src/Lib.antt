-- ===== src/Lib.antt =====
-- The client state of the web application (apps/web): the stores of issues, inbox, runtimes and
-- workspaces, the view of the issues, the hooks of an issue's timeline, reactions and subscribers,
-- the normalization of agent triggers, the registrations of the WebSocket client and what its
-- messages refresh, the SSH configuration of runtimes, the session of the user, the API client, the
-- usage of runtimes, the texts of streamed markdown and of links, the tree of a skill's files, the
-- board, the live card of an agent, the jobs on a runtime and its terminal, the small stores of the
-- screens, and the groups of the reaction bar.
--
-- How the parts interact. The server sends lists and events. The stores keep lists of objects by id.
-- The workspace store opens a workspace: it sets its id in the API client and in localStorage,
-- empties the stores of issues, inbox and runtimes, and starts their fetches. The hooks keep what is
-- shown of one issue: they load it, follow the events of the others, and show the user's own actions
-- at once, taking them back when the server refuses. The view store holds filters and order, which
-- filterIssues and sortIssues apply to the list of the issue store.
--
-- How it is modelled. A store is a record of its fields, an action a function on it with the source's
-- name in snake case. An asynchronous action is cut at its `await`: `fetch_start` is what runs before
-- the call, `fetch_end` what runs when the answer is there, which is `resolved` or `rejected`; other
-- actions may run in between, and theorems on several parts say so. What JavaScript compares by
-- identity is compared by an address or a number. Null and undefined are `none`.
--
--   Base            lists, dictionaries (Map), texts, a stable sort, answers of the server
--   Types           apps/web/shared/types: Issue, Inbox, Comment (with activity, attachment, subscriber),
--                   Workspace, Agent
--   IssueStore      apps/web/features/issues/store.ts: add_issue is addIssue, and so on
--   InboxStore      apps/web/features/inbox/store.ts: deduplicate is deduplicateInboxItems
--                   without its memory, which Memo adds
--   Thread          apps/web/features/issues/hooks/use-issue-timeline.ts: the loop over the
--                   replies of a comment
--   Timeline        the same file: handle is its WebSocket handlers, Timeline/Actions its actions
--   IssueReactions  apps/web/features/issues/hooks/use-issue-reactions.ts
--   Subscribers     apps/web/features/issues/hooks/use-issue-subscribers.ts
--   ViewStore       apps/web/features/issues/stores/view-store.ts; Filter and Order are utils/filter.ts
--                   and utils/sort.ts of the same feature, Config the orders of apps/web/features/issues/config
--   RuntimeStore    apps/web/features/runtimes/store.ts
--   WorkspaceStore  apps/web/features/workspace/store.ts
--   Triggers        apps/web/shared/agent-triggers.ts
--   WsClient        apps/web/shared/api/ws-client.ts
--   Realtime        apps/web/features/realtime/use-realtime-sync.ts: which refresh a message starts
--                   and when it runs; Handlers are the events with a handler of their own
--   Ssh             apps/web/features/runtimes/ssh.ts
--   Auth            apps/web/features/auth/store.ts
--   ApiClient       apps/web/shared/api/client.ts and index.ts; Request and the files beside it are the
--                   requests of the methods, one constructor each
--   Usage           apps/web/features/runtimes/utils.ts
--   Markdown        apps/web/components/markdown/StreamingMarkdown.tsx: Hash is simpleHash, Blocks
--                   splitIntoBlocks
--   Linkify         apps/web/components/markdown/linkify.ts
--   Selection       apps/web/features/issues/stores/selection-store.ts
--   FileTree        apps/web/features/skills/components/file-tree.tsx
--   Board           apps/web/features/issues/components/board-view.tsx: handle_drag_end is handleDragEnd
--   LiveCard        apps/web/features/issues/components/agent-live-card.tsx
--   RuntimeJobs     apps/web/features/runtimes/components/ping-section.tsx and update-section.tsx
--   Terminal        apps/web/features/runtimes/components/runtime-ssh-terminal.tsx
--   Screens         apps/web/features/navigation/store.ts, features/modals/store.ts, and the draft and scope
--                   stores in apps/web/features/issues/stores
--   ReactionBar     apps/web/components/common/reaction-bar.tsx: group_reactions is groupReactions
--   Samples         the data of the tests, which stand beside each part
--
-- Bounds and fuel. The loop of Thread runs on fuel, one round more than there are entries; that this
-- is enough is part of a result below. The text of a hash in base 36 runs on fuel seven, as 2 ^ 32
-- is below 36 ^ 7. All other loops are structural. simpleHash computes on
-- 32 bits, with the wrap-around written out; counts and times are unbounded. The position of an issue
-- is a finite double in units of 2^-1074, and Board rounds what it computes; a number of the metadata
-- is a decimal or not finite; costs are doubles whose operations are a parameter.
--
-- Parameters. The time of a date, `time`, the collation of titles, `locale_compare`, and the text of a
-- number, `to_text`, are the browser's and are arguments; dates are taken to be valid. Ids and times
-- that the client makes up are arguments too. The matches of regular expressions and of linkify-it are
-- arguments of Linkify; the rounding of Board and the operations on doubles of Usage are JavaScript's
-- and are arguments.
--
-- Not modelled: rendering, toasts and logs, persistence, sending requests, the Go server and the
-- mobile client; of the web application the editor, the page of agents and the rest of the pages.
pub mod Base
pub mod Types
pub mod IssueStore
pub mod InboxStore
pub mod Thread
pub mod Timeline
pub mod IssueReactions
pub mod Subscribers
pub mod ViewStore
pub mod RuntimeStore
pub mod WorkspaceStore
pub mod Triggers
pub mod WsClient
pub mod Realtime
pub mod Ssh
pub mod Auth
pub mod ApiClient
pub mod Usage
pub mod Markdown
pub mod Linkify
pub mod Selection
pub mod FileTree
pub mod Board
pub mod LiveCard
pub mod RuntimeJobs
pub mod Terminal
pub mod Screens
pub mod ReactionBar
pub mod Samples
