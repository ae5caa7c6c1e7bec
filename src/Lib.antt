-- ===== src/Lib.antt =====
-- Artalk, a self-hosted comment server: a model of its core in Go, and what holds of it.
--
-- The program is a web server. The handlers (server/handler) take a request, ask who sends it
-- (server/common), and work through the data access objects (internal/dao) on a database and on a
-- cache in front of it. Limiters (internal/limiter) stand before the handlers that write. The model
-- has a module for each of these parts:
--
-- Entity: the rows of the tables, internal/entity.
-- Backend: what is taken from outside, the tables that GORM gives and the key-value store behind
-- internal/cache, with the laws that the code relies on. Backend.Memory fulfils them in memory.
-- Dao: internal/dao. Dao.Cache is cache.go and internal/cache/action.go, Dao.Find is query_find.go,
-- Dao.Write is query_new.go, query_update.go and query_del.go, Dao.Create is query_find_create.go,
-- Dao.VoteSync is the vote part of service.go. The modules beside them state when the cache agrees
-- with the table (Dao.Coherence), what the searches through replies gather (Dao.Children, Dao.Descend,
-- Dao.Below, Dao.RootId), and what saving and deleting do to both (Dao.Saving, Dao.SavingCache, Dao.Deletion,
-- Dao.DeletionCache).
-- Dao.WarmUp is cache_wram.go, and Dao.Users the search for users by their e-mail address.
-- Dao.Reading says that reads change nothing but the cache.
-- Dao.Notifying is the part of query_find.go, query_new.go, query_update.go and service.go that is on
-- notifications, and association.go, and Dao.Sites the one on sites, with the loops of the handlers
-- that rename. Dao.Editing, Dao.Renaming and Dao.Calm say what saves and such
-- loops change, and which calls leave the comments alone.
-- Ban: internal/ban/email.go.
-- SimpleCache and Limiter: internal/cache/simple_cache and internal/limiter, the latter with
-- Limiter.Content and Limiter.History, which say what its store means, and Limiter.Rate, rate.go.
-- Server: Server.Auth is server/common/auth.go, check.go and guest.go. Server.CommentDelete,
-- Server.CommentCreate, Server.Vote and Server.CommentGet are the handlers comment_delete.go,
-- comment_create.go, vote.go and comment_get.go of server/handler, and Server.CommentList is
-- comment_list.go there. Server.CommentsGet is the package comments_get below it, and Server.Site and
-- Server.Captcha are site.go and captcha.go of server/common. Server.CommentUpdate is comment_update.go of
-- server/handler, and Server.CommentCreate.Jobs has what runs after a comment was created.
-- Server.Users is user_create.go, user_update.go and user_login.go there. Server.Sites,
-- Server.Pages and Server.Notifies are the handlers whose names begin with site_, page_
-- and notify_ that change something, and the list of notifications.
-- AntiSpam: internal/anti_spam and service_anti_spam.go of internal/core.
-- NotifyPusher: internal/notify_pusher, and AsyncSend of service_email.go of internal/core; what is
-- sent is a list beside the answer.
-- Artransfer: the import of internal/artransfer. Artransfer.Ids numbers the comments of a file,
-- Artransfer.Prepare finds or creates sites, pages and users, Artransfer.Import is the whole; beside
-- them, Artransfer.Rows, Artransfer.Numbers, Artransfer.Roots, Artransfer.Prepared and Artransfer.Stored
-- say what the steps do to comments, Artransfer.Placed what they do with sites and pages, and
-- Artransfer.Owners, Artransfer.Authors and Artransfer.Owned what they do with users.
-- Tests: concrete states, and the theorems at them.
--
-- A method of the data access objects is a function from the state `Dao`, which has the tables and
-- the cache, to its result and the state it leaves, so a method that fails keeps what it wrote
-- before. The names are those of the code in another spelling: FindCommentChildren is
-- find_comment_children.
--
-- Bounds and fuel: the search through replies recurses on fuel, and `none` is fuel that ran out. Where
-- replies have larger keys than what they reply to, the difference of the bound of the keys and the
-- key of the comment is enough. FindCommentRootID runs with the number of comments and two more, and
-- this is always enough; the search for the root of an imported comment runs with as many rounds for
-- the comments of the file. Row keys, counters and times are numbers without a bound; the counter of
-- SimpleCache wraps around at 32 bits as its type does.
--
-- Not modelled: reads of the database that fail, the bodies of error messages, logging,
-- translation, the fields of answers that only show something, concurrent calls (each operation
-- runs alone, which the mutexes, transactions and singleflight groups of the code are for), time
-- zones, and soft deletion, which the code does not use, the title of a page that is fetched after
-- a comment, and the texts of mails and messages and their senders. Where a handler reads its
-- parameters (server/common/params.go), the check that required ones are there is left out, so the
-- handlers of the model take more requests. Entries of the cache do not expire, and writing one
-- does not fail. The dates at which rows were last updated are left out, so the import sets those
-- of creation only. A negative number of votes in an import is read as zero, and one that is too
-- large for an integer of the program is taken as it is. The parser of signed tokens, SHA-256, the
-- lower case of texts and of the database, LIKE, the test of an e-mail address, the parsers of URLs
-- and dates, the random keys of notifications, bcrypt, the remote spam checkers and the files of
-- keywords are parameters. Text comparison in the database is exact.
pub mod Prelude
pub mod Entity
pub mod Backend
pub mod Dao
pub mod Ban
pub mod SimpleCache
pub mod Limiter
pub mod Server
pub mod Tests
pub mod AntiSpam
pub mod Artransfer
pub mod NotifyPusher
