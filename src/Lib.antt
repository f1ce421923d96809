-- ===== src/Lib.antt =====
-- Aural Server: the parts of the server that decide who may do what, and the state they act on.
--
-- A client speaks to the server in frames over one connection. The gateway keeps, for every
-- connection, a session with the identity behind it, and in the hub the rows of the database that
-- every request needs: roles, channels and the owner. A handler checks a request against the hub
-- and the session, writes to the store, reloads what it changed, tells the sessions that may know,
-- and records an audit entry.
--
-- Which file is about which code:
--   Permissions   internal/permissions/permissions.go: the mask of permissions, its wire form
--                 (`to_text`, `parse` for `String`, `Parse`), `has`, `resolve`, `resolve_in_channel`.
--   Hub           internal/gateway/hub.go: the caches (`reload_roles`), effective roles and
--                 permissions, inheritance along the parents of a channel, ranks, the role stack.
--   Validate      internal/gateway/validate.go: names, colours and message bodies.
--   Protocol      internal/protocol/protocol.go: error codes and results of checks.
--   Store         internal/store/roles.go, audit.go, users.go: the rows behind roles.
--   Store.Channels internal/store/channels.go: the table of the channel tree and its overwrites.
--   Server        internal/gateway: sessions, frames, the audit log; `Server.Exec` is the chain of
--                 steps of a handler, `Server.Sync` the refresh of sessions after a change
--                 (`resyncAll`, `evictFromUnreachableChannels`, `broadcastUserMoved`).
--   Roles         internal/gateway/handlers_role.go: the checks (`check_create` and so on), and in
--                 `Roles.Handlers` the whole handlers.
--   Channels      internal/gateway/handlers_channel.go: the checks on creating, editing and deleting
--                 channels, and in `Channels.Handlers` the whole handlers.
--   Voice         internal/gateway/voice.go: the rooms of the audio plane, who hosts, and the epochs.
--   Registry      internal/gateway/hub.go: `Add` and `Remove`, over the maps of sessions by id and by
--                 identity.
--   Store.Bans    internal/store/bans.go: bans, what they catch, and which one is found.
--   Store.MessageRows the rows behind messages, posts, files and read markers, and what deleting a
--                 message or a channel takes with it.
--   Store.Messages internal/store/messages.go: writing, reading and deleting; `Store.Messages.Timeline`
--                 the pages of a channel, `Store.Messages.Reads` internal/store/channelreads.go, and
--                 `Store.Messages.Claims` internal/store/attachments.go. `Store.Messages.Steps` puts
--                 the writes behind one another in any order, and `Store.Messages.Replay` reads the
--                 table as a map from ids to rows.
--   MessageHandlers internal/gateway/handlers_message.go: the handlers of sending, editing and
--                 deleting messages and of history, the reading of a channel
--                 (`handleChannelRead` of internal/gateway/handlers_channel.go), and
--                 `MessageHandlers.Steps` what they share (the bucket of a session, `screenMessage`,
--                 `loadVisiblePost`), `MessageHandlers.Search` the filter of a search
--                 (`searchFilter`, and `SearchTerms` of internal/store/search.go). A `Setting` is
--                 the configuration, the rule set with its tables, and the moment.
--   RateLimit     internal/gateway/ratelimit.go and `userLimiters` of
--                 internal/gateway/handlers_upload.go: token buckets, counted exactly where
--                 the source rounds to a `float64`.
--   Store.Fold    internal/store/fold.go: the folding of case and accents.
--   AutoMod       internal/gateway/automod.go: `clamp`, `clampIDs`, and the history behind the flood
--                 and repetition rules; `AutoMod.Words` and `AutoMod.Rules` are the rules on what a
--                 text says, `AutoMod.Screen` the order of the rules (`screen`, `screenRelayed`;
--                 `AutoMod.Screen.Paced` runs it message after message), and
--                 `AutoMod.Normalise` the bounds of a rule set (`normaliseAutoMod`). The tables of
--                 Go's unicode and the matches of the regular expressions are the record `Tables`.
--   ClientIp      internal/gateway/clientip.go: the address behind a chain of proxies. `Net` stands for
--                 Go's netip.
--   Base, Text    what these share: lists and tests on numbers, bits, integers, and text as code
--                 points with Go's `TrimSpace`, `FormatUint` and `ParseUint`.
--   Fixtures      a small server for the tests.
--
-- Conventions. A mask is a natural number below 2 ^ 64, with the bits of the source. An id is a
-- natural number: the tables hand out ids from 1, 0 is nobody, and a negative id in a request names
-- nothing. A table or a cache by id is the list of its rows. A pointer that may be nil, or a payload
-- that may not decode, is an Option. A handler runs to its end before the next one: the locks of the
-- source are not modelled. A step of the voice rooms is what runs under their lock.
-- `Server.faults` says which of the following calls of the store fail; a call that fails leaves the
-- rows alone, as a statement or a rolled back transaction does. When the list is used up the calls
-- succeed. A token bucket refills exactly: the rounding of `float64` is not modelled.
--
-- Bounds. The chain of parents of a channel is cut at 32 channels, as in the source (`chain_up`
-- recurses on that number), and the climb that looks for a cycle after as many rounds (`climb`). The
-- recursive query of `DescendantIDs` is taken generation by generation, as many times as there are
-- channels (`generations`), which is more than the generations of a tree. The walk through the pages of
-- a channel (`walk_back`) recurses on a number that only has to be more than the number of its lines.
-- `format_uint` recurses on n + 1, which is more than the digits of n.
--
-- Not modelled: the SQL engine, JSON, WebSocket and WebRTC, which are libraries; authentication,
-- uploads, the bridge to other services, configuration and start-up, which are mostly calls of those
-- or input and output. What a handler hands to the bridge is noted in `Server.relayed`, and the files
-- it removes from disk in `Server.removed_files`. Of messages, the query of a
-- search and what it finds, the format of embeds, and the handlers of posts and private messages; the handlers of bans,
-- voice and the rule set of automatic moderation; and the files that go with a deleted channel.
pub mod AutoMod
pub mod Base
pub mod Channels
pub mod ClientIp
pub mod Fixtures
pub mod Hub
pub mod MessageHandlers
pub mod Permissions
pub mod Protocol
pub mod RateLimit
pub mod Registry
pub mod Roles
pub mod Server
pub mod Store
pub mod Text
pub mod Validate
pub mod Voice
