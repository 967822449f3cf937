-- ===== src/Acl/Lists.antt =====
-- src/domain/acl.rs: the command lists.
use srh_rs.Base.{List, [], ◌∷◌, map, Text, text}

unfoldable pub hard_deny : List Text
hard_deny = map text (
    "CONFIG" ∷ "SHUTDOWN" ∷ "DEBUG" ∷ "SLAVEOF" ∷ "REPLICAOF" ∷ "MIGRATE" ∷ "MODULE" ∷ "SAVE"
    ∷ "BGSAVE" ∷ "BGREWRITEAOF" ∷ "LASTSAVE" ∷ "ACL" ∷ "CLIENT" ∷ "CLUSTER" ∷ "LATENCY" ∷ "MONITOR"
    ∷ "PSYNC" ∷ "SYNC" ∷ "FAILOVER" ∷ "RESET" ∷ "SLOWLOG" ∷ "COMMAND" ∷ "MEMORY" ∷ "HELLO"
    ∷ "SELECT" ∷ "SWAPDB" ∷ "AUTH" ∷ "QUIT" ∷ "MULTI" ∷ "EXEC" ∷ "DISCARD" ∷ "WATCH" ∷ "UNWATCH"
    ∷ "SUBSCRIBE" ∷ "PSUBSCRIBE" ∷ "UNSUBSCRIBE" ∷ "PUNSUBSCRIBE" ∷ "SSUBSCRIBE" ∷ "SUNSUBSCRIBE"
    ∷ "PUBLISH" ∷ "PUBSUB" ∷ "BLPOP" ∷ "BRPOP" ∷ "BLMOVE" ∷ "BRPOPLPUSH" ∷ "BLMPOP" ∷ "BZPOPMIN"
    ∷ "BZPOPMAX" ∷ "BZMPOP" ∷ "WAIT" ∷ "WAITAOF" ∷ "SCRIPT" ∷ "FUNCTION" ∷ [])

unfoldable pub scripting : List Text
scripting = map text ("EVAL" ∷ "EVALSHA" ∷ "EVALSHA_RO" ∷ "EVAL_RO" ∷ "FCALL" ∷ "FCALL_RO" ∷ [])

unfoldable pub default_block : List Text
default_block = map text ("FLUSHALL" ∷ "FLUSHDB" ∷ "KEYS" ∷ "RANDOMKEY" ∷ "INFO" ∷ "DBSIZE" ∷ [])

unfoldable pub read_commands : List Text
read_commands = map text (
    "GET" ∷ "MGET" ∷ "GETRANGE" ∷ "STRLEN" ∷ "EXISTS" ∷ "TYPE" ∷ "TTL" ∷ "PTTL" ∷ "EXPIRETIME"
    ∷ "PEXPIRETIME" ∷ "HGET" ∷ "HMGET" ∷ "HGETALL" ∷ "HKEYS" ∷ "HVALS" ∷ "HLEN" ∷ "HEXISTS"
    ∷ "HSTRLEN" ∷ "HRANDFIELD" ∷ "LRANGE" ∷ "LLEN" ∷ "LINDEX" ∷ "LPOS" ∷ "SMEMBERS" ∷ "SISMEMBER"
    ∷ "SMISMEMBER" ∷ "SCARD" ∷ "SRANDMEMBER" ∷ "SINTER" ∷ "SUNION" ∷ "SDIFF" ∷ "SINTERCARD"
    ∷ "ZRANGE" ∷ "ZRANGEBYSCORE" ∷ "ZRANGEBYLEX" ∷ "ZREVRANGE" ∷ "ZREVRANGEBYSCORE"
    ∷ "ZREVRANGEBYLEX" ∷ "ZSCORE" ∷ "ZMSCORE" ∷ "ZCARD" ∷ "ZCOUNT" ∷ "ZLEXCOUNT" ∷ "ZRANK"
    ∷ "ZREVRANK" ∷ "ZRANDMEMBER" ∷ "GETBIT" ∷ "BITCOUNT" ∷ "BITPOS" ∷ "BITFIELD_RO" ∷ "XRANGE"
    ∷ "XREVRANGE" ∷ "XLEN" ∷ "XREAD" ∷ "XINFO" ∷ "GEOPOS" ∷ "GEODIST" ∷ "GEOHASH" ∷ "GEOSEARCH"
    ∷ "PFCOUNT" ∷ "OBJECT" ∷ "DUMP" ∷ "TOUCH" ∷ "TIME" ∷ "PING" ∷ "ECHO" ∷ "SORT_RO" ∷ "LCS"
    ∷ "SUBSTR" ∷ [])
